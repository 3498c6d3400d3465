-- ===== src/BitVec/Fill.antt =====
-- What a loop writes that fills consecutive places of a vector.
use mathlib.Core.Path.{subst}
use native.Mathlib.Nat.{add-zero, zero-add, suc-add, add-suc}
use coreir.Base.{
  ℕ, zero, suc, ◌+◌, ◌<◌, ◌≡◌, refl, sym, ◌∙◌, Option, some, List, [], ◌∷◌, ◌++◌, append_assoc,
  append-nil, replicate, length-replicate, length, length_snoc, get_elem?, get_elem?_here, set_here,
  length-append, lt→ltb, for_up, for_down, for_down-suc, arith,
}
use coreir.Quad.{QuadValue, low, high}
use coreir.BitVec.{QuadValueBitVector, zeros, get, set_value, set_int, fill_step}
use coreir.BitVec.Words.{vec, bit}

-- A write behind a prefix of length `i`.
pub set_value_here :
    (p : List QuadValue) (x : QuadValue) (xs : List QuadValue) (n i : ℕ) (q : QuadValue)
    → i ≡ length p
    → set_value (vec (p ++ x ∷ xs) n) i q ≡ some (vec (p ++ q ∷ xs) n)
unfolding set_value
set_value_here p x xs n i q e =
    rw (e, lt→ltb (length p) (length (p ++ x ∷ xs)) (omega (arith, length-append p (x ∷ xs))))
      (rw (set_here p x xs q))

pub get_here :
    (p : List QuadValue) (x : QuadValue) (xs : List QuadValue) (n i : ℕ)
    → i ≡ length p
    → get (vec (p ++ x ∷ xs) n) i ≡ some x
unfolding get
get_here p x xs n i e = rw e (get_elem?_here p x xs)

pub set_int_here :
    (p : List QuadValue) (x : QuadValue) (xs : List QuadValue) (n i c : ℕ)
    → i ≡ length p
    → c < 2
    → set_int (vec (p ++ x ∷ xs) n) i c ≡ some (vec (p ++ bit c ∷ xs) n)
unfolding set_int set_value
set_int_here p x xs n i zero e h = set_value_here p x xs n i low e
set_int_here p x xs n i (suc zero) e h = set_value_here p x xs n i high e
set_int_here p x xs n i (suc (suc c)) e h = absurd (omega arith)

-- A loop going up over `length ys` places.
pub fill_up :
    (dst : ℕ → ℕ) (src : ℕ → Option QuadValue) (ys zs p t : List QuadValue) (n i : ℕ)
    → length zs ≡ length ys
    → ((k : ℕ) → k < length ys → src (i + k) ≡ get_elem? ys k)
    → ((k : ℕ) → k < length ys → dst (i + k) ≡ length p + k)
    → for_up (fill_step dst src) (length ys) i (vec (p ++ (zs ++ t)) n)
      ≡ some (vec (p ++ (ys ++ t)) n)
unfolding for_up
fill_up dst src [] [] p t n i e hs hd = refl
fill_up dst src [] (z ∷ zs) p t n i e hs hd = absurd (omega arith)
fill_up dst src (y ∷ ys) [] p t n i e hs hd = absurd (omega arith)
fill_up dst src (y ∷ ys) (z ∷ zs) p t n i e hs hd =
    let read : src i ≡ some y = rw add-zero at (hs 0 (omega arith)) in
    let place : dst i ≡ length p = omega (arith, rw add-zero at (hd 0 (omega arith))) in
    let rest =
      fill_up dst src ys zs (p ++ y ∷ []) t n (suc i) (omega arith)
        (λ k h. rw suc-add (rw add-suc at (hs (suc k) (omega arith))))
        (λ k h.
          rw (suc-add, length_snoc, suc-add)
            (rw (add-suc, add-suc) at (hd (suc k) (omega arith)))) in
    let rest' = rw (append_assoc p (y ∷ []) (zs ++ t), append_assoc p (y ∷ []) (ys ++ t)) at rest in
    rw (read, set_value_here p z (zs ++ t) n (dst i) y place) rest'

-- A loop going down over `length ys` places.
pub fill_down :
    (dst : ℕ → ℕ) (src : ℕ → Option QuadValue) (ys zs p t : List QuadValue) (n i : ℕ)
    → length zs ≡ length ys
    → ((k : ℕ) → k < length ys → src (i + k) ≡ get_elem? ys k)
    → ((k : ℕ) → k < length ys → dst (i + k) ≡ length p + k)
    → for_down (fill_step dst src) (length ys) i (vec (p ++ (zs ++ t)) n)
      ≡ some (vec (p ++ (ys ++ t)) n)
unfolding for_down
fill_down dst src [] [] p t n i e hs hd = refl
fill_down dst src [] (z ∷ zs) p t n i e hs hd = absurd (omega arith)
fill_down dst src (y ∷ ys) [] p t n i e hs hd = absurd (omega arith)
fill_down dst src (y ∷ ys) (z ∷ zs) p t n i e hs hd =
    let read : src i ≡ some y = rw add-zero at (hs 0 (omega arith)) in
    let place : dst i ≡ length p = omega (arith, rw add-zero at (hd 0 (omega arith))) in
    let rest =
      fill_down dst src ys zs (p ++ z ∷ []) t n (suc i) (omega arith)
        (λ k h. rw suc-add (rw add-suc at (hs (suc k) (omega arith))))
        (λ k h.
          rw (suc-add, length_snoc, suc-add)
            (rw (add-suc, add-suc) at (hd (suc k) (omega arith)))) in
    let rest' = rw (append_assoc p (z ∷ []) (zs ++ t), append_assoc p (z ∷ []) (ys ++ t)) at rest in
    for_down-suc (fill_step dst src) (length ys) i _
    ∙ rw rest' (rw read (set_value_here p z (ys ++ t) n (dst i) y place))

-- A loop that fills a new vector from its first place.
pub fill_zeros :
    (src : ℕ → Option QuadValue) (ys : List QuadValue) (n : ℕ)
    → length ys ≡ n
    → ((k : ℕ) → k < n → src k ≡ get_elem? ys k)
    → for_up (fill_step (λ i. i) src) n 0 (zeros n) ≡ some (vec ys n)
unfolding zeros
fill_zeros src ys n e hs =
    let filled =
      fill_up (λ i. i) src ys (replicate n low) [] [] n 0 (length-replicate n low ∙ sym e)
        (λ k h. rw zero-add (hs k (omega arith))) (λ k h. refl) in
    let whole = rw (append-nil (replicate n low), append-nil ys) at filled in
    subst (λ m. for_up (fill_step (λ i. i) src) m 0 (vec (replicate n low) n) ≡ some (vec ys n)) e
      whole

-- From place `i` on, the vector reads as the list.
abbrev pub Reads : QuadValueBitVector → ℕ → List QuadValue → Type 0
Reads a i ys = (k : ℕ) → k < length ys → get a (i + k) ≡ get_elem? ys k

pub Reads-head :
    (a : QuadValueBitVector) (i : ℕ) (y : QuadValue) (ys : List QuadValue)
    → Reads a i (y ∷ ys)
    → get a i ≡ some y
Reads-head a i y ys r = rw add-zero at (r 0 (omega arith))

pub Reads-tail :
    (a : QuadValueBitVector) (i : ℕ) (y : QuadValue) (ys : List QuadValue)
    → Reads a i (y ∷ ys)
    → Reads a (suc i) ys
Reads-tail a i y ys r k h = rw suc-add (rw (add-suc i k) at (r (suc k) (omega arith)))

pub Reads-self : (ys : List QuadValue) (n : ℕ) → Reads (vec ys n) 0 ys
unfolding get
Reads-self ys n k h = rw zero-add

-- The same loop where only the places behind the first `length ys` of the rest stay as they are.
pub fill_front :
    (src : ℕ → Option QuadValue) (ys zs t : List QuadValue) (m n : ℕ)
    → length ys ≡ m
    → length zs ≡ m
    → ((k : ℕ) → k < m → src k ≡ get_elem? ys k)
    → for_up (fill_step (λ i. i) src) m 0 (vec (zs ++ t) n) ≡ some (vec (ys ++ t) n)
fill_front src ys zs t m n e f hs =
    subst (λ k. for_up (fill_step (λ i. i) src) k 0 (vec (zs ++ t) n) ≡ some (vec (ys ++ t) n)) e
      (fill_up (λ i. i) src ys zs [] t n 0 (f ∙ sym e) (λ k h. rw zero-add (hs k (omega arith)))
        (λ k h. refl))
