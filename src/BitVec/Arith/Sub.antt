-- ===== src/BitVec/Arith/Sub.antt =====
-- `sub_general_width_bv` subtracts modulo 2 ^ N, by a borrow that is written into a copy of `a`.
use native.Mathlib.Nat.{mod-lt}
use coreir.Base.{
  ℕ, zero, suc, ◌+◌, ◌-◌, ◌/◌, ◌%◌, ◌^◌, ◌≤◌, ◌<◌, ◌≡◌, refl, ◌∙◌, inl, inr, lt→leb_false, Option,
  some, List, [], ◌∷◌, ◌++◌, ◌>>=◌, >>=_assoc, append_assoc, leb, if◌then◌else◌, length,
  length_snoc, arith,
}
use coreir.Base.Pow.{parity, two-pow-pos}
use coreir.Quad.{QuadValue, low, high}
use coreir.BitVec.{QuadValueBitVector, get, set_int}
use coreir.BitVec.Words.{vec, bit, digits, word, zeros-eq-word, length-digits, word-mod, word_wraps}
use coreir.BitVec.Fill.{get_here, set_int_here, Reads, Reads-head, Reads-tail, Reads-self}
use coreir.BitVec.Arith.{borrow_loop, borrow, sub_loop, sub_general_width_bv}

-- What follows the inner loop.
abbrev finish : ℕ → QuadValueBitVector × ℕ → Option QuadValueBitVector
finish width (a', j) = if leb width j then some a' else set_int a' j 0

borrow_step_zero :
    (a : QuadValueBitVector) (width k j : ℕ)
    → get a j ≡ some low
    → (borrow_loop (suc k) j a >>= finish width)
      ≡ (set_int a j 1 >>= λ a'. borrow_loop k (suc j) a' >>= finish width)
unfolding borrow_loop
borrow_step_zero a width k j h =
    rw h (>>=_assoc (set_int a j 1) (borrow_loop k (suc j)) (finish width))

borrow_step_one :
    (a : QuadValueBitVector) (width k j : ℕ)
    → get a j ≡ some high
    → (borrow_loop (suc k) j a >>= finish width) ≡ finish width (a, j)
unfolding borrow_loop
borrow_step_one a width k j h = rw h

borrow_top :
    (a : QuadValueBitVector) (width j : ℕ)
    → width ≤ j
    → (borrow_loop 0 j a >>= finish width) ≡ some a
unfolding borrow_loop
borrow_top a width j h = ground arith

-- The borrow turns the digits of `m + 1` into those of `m`.
borrow-digits :
    (width k j m n : ℕ) (p : List QuadValue)
    → j ≡ length p
    → width ≡ j + k
    → (borrow_loop k j (vec (p ++ digits k (m + 1)) n) >>= finish width)
      ≡ some (vec (p ++ digits k m) n)
borrow-digits width zero j m n p hp hw = borrow_top (vec (p ++ []) n) width j (omega arith)
borrow-digits width (suc k) j m n p hp hw = elim (parity m) [
  | inl even ↦
      let odd : (m + 1) % 2 ≡ 1 = omega arith in
      let half : (m + 1) / 2 ≡ m / 2 = omega arith in
      rw (even, odd, half)
        (borrow_step_one _ width k j (get_here p high (digits k (m / 2)) n j hp)
          ∙ rw (lt→leb_false width j (omega arith))
              (set_int_here p high (digits k (m / 2)) n j 0 hp (omega arith)))
  | inr odd ↦
      let even : (m + 1) % 2 ≡ 0 = omega arith in
      let half : (m + 1) / 2 ≡ m / 2 + 1 = omega arith in
      let tail = digits k (m / 2 + 1) in
      let rest =
        borrow-digits width k (suc j) (m / 2) n (p ++ high ∷ []) (omega (arith, length_snoc p high))
          (omega arith) in
      let rest' =
        rw (append_assoc p (high ∷ []) tail, append_assoc p (high ∷ []) (digits k (m / 2))) at
          rest in
      rw (odd, even, half)
        (borrow_step_zero _ width k j (get_here p low tail n j hp)
          ∙ rw (set_int_here p low tail n j 1 hp (omega arith)) rest')
]

borrow_behind :
    (width k i m n : ℕ) (p : List QuadValue) (d : QuadValue)
    → i ≡ length p
    → width ≡ i + suc k
    → borrow width k i (vec (p ++ d ∷ digits k (m + 1)) n) ≡ some (vec (p ++ d ∷ digits k m) n)
unfolding borrow
borrow_behind width k i m n p d hp hw =
    rw (append_assoc p (d ∷ []) (digits k (m + 1)), append_assoc p (d ∷ []) (digits k m)) at
      (borrow-digits width k (suc i) m n (p ++ d ∷ []) (omega (arith, length_snoc p d))
        (omega arith))

-- One column, by the digits `m` of the minuend and `o` of the subtrahend.
module _ (width k i : ℕ) (b diff a_cpy : QuadValueBitVector) where
  column_borrows :
      get a_cpy i ≡ some low
      → get b i ≡ some high
      → sub_loop width b (suc k) i diff a_cpy ≡ (
          set_int diff i 1 >>= λ diff'.
          borrow width k i a_cpy >>= λ a'. sub_loop width b k (suc i) diff' a')
  unfolding sub_loop
  column_borrows ga gb = rw (ga, gb)

  column_same :
      (m : ℕ)
      → m < 2
      → get a_cpy i ≡ some (bit m)
      → get b i ≡ some (bit m)
      → sub_loop width b (suc k) i diff a_cpy
        ≡ (set_int diff i 0 >>= λ diff'. sub_loop width b k (suc i) diff' a_cpy)
  unfolding sub_loop
  column_same zero h ga gb = rw (ga, gb, gb)
  column_same (suc zero) h ga gb = rw (ga, gb)
  column_same (suc (suc m)) h ga gb = absurd (omega arith)

  column_one_less :
      get a_cpy i ≡ some high
      → get b i ≡ some low
      → sub_loop width b (suc k) i diff a_cpy
        ≡ (set_int diff i 1 >>= λ diff'. sub_loop width b k (suc i) diff' a_cpy)
  unfolding sub_loop
  column_one_less ga gb = rw (ga, gb)

sub_loop_done :
    (width i : ℕ) (b diff a_cpy : QuadValueBitVector) → sub_loop width b 0 i diff a_cpy ≡ some diff
unfolding sub_loop
sub_loop_done width i b diff a_cpy = refl

-- With the prefixes `r` and `p` done and `v + y` left of the minuend, the loop leaves `v`.
abbrev Subtracts : ℕ → QuadValueBitVector → (k i v y n : ℕ) (r zs p : List QuadValue) → Type 0
Subtracts width b k i v y n r zs p =
    sub_loop width b k i (vec (r ++ zs) n) (vec (p ++ digits k (v + y)) n)
    ≡ some (vec (r ++ digits k v) n)

Subtracts-snoc :
    (width : ℕ) (b : QuadValueBitVector) (k i v y n : ℕ) (r zs p : List QuadValue) (d e : QuadValue)
    → Subtracts width b k i v y n (r ++ d ∷ []) zs (p ++ e ∷ [])
    → sub_loop width b k i (vec (r ++ d ∷ zs) n) (vec (p ++ e ∷ digits k (v + y)) n)
      ≡ some (vec (r ++ d ∷ digits k v) n)
Subtracts-snoc width b k i v y n r zs p d e h =
    rw
      (
        append_assoc r (d ∷ []) zs,
        append_assoc r (d ∷ []) (digits k v),
        append_assoc p (e ∷ []) (digits k (v + y)),
      )
      at h

sub_loop-digits :
    (width : ℕ) (b : QuadValueBitVector) (k i v y n : ℕ) (r zs p : List QuadValue)
    → Reads b i (digits k y)
    → i ≡ length r
    → i ≡ length p
    → length zs ≡ k
    → width ≡ i + k
    → Subtracts width b k i v y n r zs p
sub_loop-digits width b zero i v y n r [] p rb hr hp hz hw = sub_loop_done _ _ _ _ _
sub_loop-digits width b zero i v y n r (z ∷ zs) p rb hr hp hz hw = absurd (omega arith)
sub_loop-digits width b (suc k) i v y n r [] p rb hr hp hz hw = absurd (omega arith)
sub_loop-digits width b (suc k) i v y n r (z ∷ zs) p rb hr hp hz hw =
    let gb = Reads-head b i (bit (y % 2)) (digits k (y / 2)) rb in
    let rb' = Reads-tail b i (bit (y % 2)) (digits k (y / 2)) rb in
    let diff = vec (r ++ z ∷ zs) n in
    let rest = λ (d e : QuadValue). Subtracts-snoc width b k (suc i) (v / 2) (y / 2) n r zs p d e (
      sub_loop-digits width b k (suc i) (v / 2) (y / 2) n (r ++ d ∷ []) zs (p ++ e ∷ []) rb'
        (omega (arith, length_snoc r d)) (omega (arith, length_snoc p e)) (omega arith)
        (omega arith)) in
    elim (parity v) [
      | inl v_even ↦
          let m_digit : (v + y) % 2 ≡ y % 2 = omega arith in
          let half : (v + y) / 2 ≡ v / 2 + y / 2 = omega arith in
          let e = bit (y % 2) in
          let tail = digits k (v / 2 + y / 2) in
          rw (m_digit, half, v_even)
            (column_same width k i b diff (vec (p ++ e ∷ tail) n) (y % 2) (omega arith)
                (get_here p e tail n i hp) gb
              ∙ rw (set_int_here r z zs n i 0 hr (omega arith)) (rest low e))
      | inr v_odd ↦ elim (parity y) [
        | inl y_even ↦
            let m_digit : (v + y) % 2 ≡ 1 = omega arith in
            let half : (v + y) / 2 ≡ v / 2 + y / 2 = omega arith in
            let tail = digits k (v / 2 + y / 2) in
            rw (m_digit, half, v_odd)
              (column_one_less width k i b diff (vec (p ++ high ∷ tail) n)
                  (get_here p high tail n i hp) (rw y_even at gb)
                ∙ rw (set_int_here r z zs n i 1 hr (omega arith)) (rest high high))
        | inr y_odd ↦
            let m_digit : (v + y) % 2 ≡ 0 = omega arith in
            let half : (v + y) / 2 ≡ v / 2 + y / 2 + 1 = omega arith in
            let tail = digits k (v / 2 + y / 2 + 1) in
            rw (m_digit, half, v_odd)
              (column_borrows width k i b diff (vec (p ++ low ∷ tail) n)
                  (get_here p low tail n i hp) (rw y_odd at gb)
                ∙ rw
                    (
                      set_int_here r z zs n i 1 hr (omega arith),
                      borrow_behind width k i (v / 2 + y / 2) n p low hp (omega arith),
                    )
                    (rest high low))
      ]
    ]

pub sub-word_add : (w x y : ℕ) → sub_general_width_bv (word w (x + y)) (word w y) ≡ some (word w x)
unfolding sub_general_width_bv
sub-word_add w x y = rw (zeros-eq-word w) (
    sub_loop-digits w (word w y) w 0 x y w [] (digits w 0) [] (Reads-self (digits w y) w) refl refl
      (length-digits w 0) (omega arith))

-- For all widths and values: the difference of two binary vectors is the vector of the difference
-- modulo 2 ^ w.
pub sub-word :
    (w x y : ℕ)
    → sub_general_width_bv (word w x) (word w y) ≡ some (word w (x + (2 ^ w - y % 2 ^ w)))
sub-word w x y =
    let m = 2 ^ w in
    let back : x + (m - y % m) + y % m ≡ x + m = omega (arith, mod-lt y (two-pow-pos w)) in
    let e = sub-word_add w (x + (m - y % m)) (y % m) in
    let e' = rw (back, word-mod w y, word_wraps w x) at e in e'
