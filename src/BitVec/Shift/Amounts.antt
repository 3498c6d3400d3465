-- ===== src/BitVec/Shift/Amounts.antt =====
-- `shl`, `lshr` and `ashr` on binary vectors. The amount is a vector of at most 64 bits whose value
-- is at most 64.
use native.Mathlib.Nat.{mod-eq_of_lt, div-one}
use native.Mathlib.Decide.{dec_le}
use coreir.Base.{
  ℕ, zero, suc, ◌+◌, ◌-◌, ◌*◌, ◌/◌, ◌%◌, ◌^◌, ◌≤◌, ◌<◌, ◌≡◌, refl, sym, ap, ◌∙◌, none, some, Option,
  ◌>>=◌, List, [], ◌++◌, append-nil, le→leb, lt→ltb, length, replicate, length-replicate,
  replicate-append, get_elem?, get_elem?-replicate, for_up, for_down, arith,
}
use coreir.Base.Pow.{two-pow-suc, two-pow_mono, mod-div-two-pow}
use coreir.Quad.{QuadValue, low}
use mathlib.Core.Path.{fun_ext}
use coreir.BitVec.{QuadValueBitVector, zeros, get, set_value, fill_step}
use coreir.BitVec.Words.{
  vec, digits, word, length-digits, digits-mod, digits_pad, digits-mul_pow, get_elem?-digits_above,
  get_elem?-digits,
}
use coreir.BitVec.Fill.{fill_up, fill_down}
use coreir.BitVec.Access.{to_type-word, is_binary_vector-word}
use coreir.BitVec.Shift.{get_shift_int, shift_type, shl, clear_down, lshr_by, lshr}

-- The amount is read back from its vector.
shift_type_fits : (s : ℕ) → s ≤ 64 → (s ≤ shift_type s) × (0 < shift_type s)
shift_type_fits s h = ground arith

pub get_shift_int-word : (s k : ℕ) → s ≤ 64 → k < 2 ^ s → k ≤ 64 → get_shift_int (word s k) ≡ some k
unfolding get_shift_int
get_shift_int-word s k hs hk h =
    let fits = shift_type_fits s hs in
    let in_type : k < 2 ^ shift_type s = omega (arith, two-pow_mono s (shift_type s) fits.0) in
    rw (
      le→leb s 64 hs,
      to_type-word (shift_type s) s k fits.1,
      mod-eq_of_lt hk,
      mod-eq_of_lt in_type,
      lt→ltb k 65 (omega arith),
    )

-- Shifting left by the width or more leaves zeros.
digits-mul_large : (w k x : ℕ) → w ≤ k → digits w (x * 2 ^ k) ≡ replicate w low
digits-mul_large zero k x h = refl
digits-mul_large (suc w) zero x h = absurd (omega arith)
digits-mul_large (suc w) (suc k) x h =
    let e : x * 2 ^ suc k ≡ 2 * (x * 2 ^ k) =
      omega (arith, ap (λ (t : ℕ). x * t) (two-pow-suc k)) in
    let low_digit : x * 2 ^ suc k % 2 ≡ 0 = omega arith in
    let half : x * 2 ^ suc k / 2 ≡ x * 2 ^ k = omega arith in
    rw (low_digit, half, digits-mul_large w k x (omega arith))

shl_digits : (w k x : ℕ) → k ≤ w → digits w (x * 2 ^ k) ≡ replicate k low ++ digits (w - k) x
shl_digits w k x h =
    let e : w ≡ k + (w - k) = omega arith in
    ap (λ t. digits t (x * 2 ^ k)) e ∙ digits-mul_pow k (w - k) x

zeros_behind : (w k : ℕ) → k ≤ w → replicate w low ≡ replicate k low ++ replicate (w - k) low
zeros_behind w k h =
    let e : w ≡ k + (w - k) = omega arith in
    ap (λ t. replicate t low) e ∙ sym (replicate-append k (w - k) low)

read_shifted :
    (w k x j : ℕ) → k ≤ w → j < w - k → get (word w x) (k + j - k) ≡ get_elem? (digits (w - k) x) j
unfolding get
read_shifted w k x j h g =
    let e : k + j - k ≡ j = omega arith in
    rw e (get_elem?-digits w x j (omega arith) ∙ sym (get_elem?-digits (w - k) x j g))

shl_loop :
    (w k x : ℕ)
    → for_up (fill_step (λ i. i) (λ i. get (word w x) (i - k))) (w - k) k (zeros w)
      ≡ some (word w (x * 2 ^ k))
unfolding zeros
shl_loop w k x = elim (dec_le k w) [
  | yes h ↦
      let filled =
        fill_up (λ i. i) (λ i. get (word w x) (i - k)) (digits (w - k) x) (replicate (w - k) low)
          (replicate k low) [] w k (length-replicate (w - k) low ∙ sym (length-digits (w - k) x))
          (λ j g. read_shifted w k x j h (omega (arith, length-digits (w - k) x)))
          (λ j g. omega (arith, length-replicate k low)) in
      rw (shl_digits w k x h, zeros_behind w k h)
        (rw (append-nil, append-nil, length-digits (w - k) x) at filled)
  | no h ↦
      let e : w - k ≡ 0 = omega arith in
      rw (e, digits-mul_large w k x (omega arith)) (unfold for_up in refl)
]

-- For all widths and values: `shl` multiplies by a power of two.
pub shl-word :
    (w s x k : ℕ)
    → s ≤ 64
    → k < 2 ^ s
    → k ≤ 64
    → shl (word w x) (word s k) ≡ some (word w (x * 2 ^ k))
unfolding shl
shl-word w s x k hs hk h =
    rw (is_binary_vector-word w x, is_binary_vector-word s k, get_shift_int-word s k hs hk h)
      (shl_loop w k x)

-- The first loop of the right shifts moves the digits down and leaves zeros above them.
pub move_down :
    (w k x : ℕ)
    → k ≤ w
    → for_down (fill_step (λ i. i - k) (get (word w x))) (w - k) k (zeros w)
      ≡ some (vec (digits (w - k) (x / 2 ^ k) ++ replicate k low) w)
unfolding zeros get
move_down w k x h =
    let m = w - k in
    let y = x / 2 ^ k in
    let split : replicate w low ≡ replicate m low ++ replicate k low =
      zeros_behind w m (omega arith) ∙ ap (λ t. replicate m low ++ replicate t low) (omega arith) in
    let filled =
      fill_down (λ i. i - k) (get (word w x)) (digits m y) (replicate m low) [] (replicate k low) w
        k (length-replicate m low ∙ sym (length-digits m y))
        (λ j g. get_elem?-digits_above w x k m j (omega arith) (omega (arith, length-digits m y)))
        (λ j g. omega arith) in
    rw split (rw (length-digits m y) at filled)

-- The second loop writes one digit into the `k` places at the top.
pub fill_top :
    (m k n : ℕ) (q : QuadValue) (ds : List QuadValue)
    → length ds ≡ m
    → for_down (fill_step (λ i. i) (λ i. some q)) k m (vec (ds ++ replicate k low) n)
      ≡ some (vec (ds ++ replicate k q) n)
fill_top m k n q ds e =
    let filled =
      fill_down (λ i. i) (λ i. some q) (replicate k q) (replicate k low) ds [] n m
        (length-replicate k low ∙ sym (length-replicate k q))
        (λ j g. sym (get_elem?-replicate k q j (omega (arith, length-replicate k q))))
        (λ j g. omega arith) in
    rw (append-nil, append-nil, length-replicate k q) at filled

-- The second loop of `lshr` is that of counting rounds, as long as it stays in range.
clear_down-for_down :
    (k a m : ℕ) (s : QuadValueBitVector)
    → a ≡ m + k
    → clear_down k a s ≡ for_down (fill_step (λ i. i) (λ i. some low)) k m s
unfolding clear_down for_down
clear_down-for_down zero a m s e = refl
clear_down-for_down (suc k) zero m s e = absurd (omega (arith, e))
clear_down-for_down (suc k) (suc a) m s e =
    let e' : a ≡ m + k = omega (arith, e) in
    ap (λ (i : ℕ). set_value s i low >>= clear_down k a) e'
    ∙ ap (λ f. set_value s (m + k) low >>= f) (fun_ext (λ s'. clear_down-for_down k a m s' e'))

bind_none :
    (m : Option QuadValueBitVector) (f : QuadValueBitVector → Option QuadValueBitVector)
    → ((s : QuadValueBitVector) → f s ≡ none)
    → (m >>= f) ≡ none
bind_none none f h = refl
bind_none (some s) f h = h s

clear_down_below : (k a : ℕ) (s : QuadValueBitVector) → a < k → clear_down k a s ≡ none
unfolding clear_down
clear_down_below zero a s h = absurd (omega (arith, h))
clear_down_below (suc k) zero s h = refl
clear_down_below (suc k) (suc a) s h =
    bind_none (set_value s a low) (clear_down k a)
      (λ s'. clear_down_below k a s' (omega (arith, h)))

lshr_digits :
    (w k x : ℕ)
    → k ≤ w
    → digits w (x % 2 ^ w / 2 ^ k) ≡ digits (w - k) (x / 2 ^ k) ++ replicate k low
lshr_digits w k x h =
    let m = w - k in
    let e : w ≡ k + m = omega arith in
    let f : w ≡ m + k = omega arith in
    let g : x % 2 ^ w / 2 ^ k ≡ x / 2 ^ k % 2 ^ m =
      ap (λ (t : ℕ). x % 2 ^ t / 2 ^ k) e ∙ mod-div-two-pow x k m in
    ap (digits w) g ∙ ap (λ t. digits t (x / 2 ^ k % 2 ^ m)) f ∙ digits_pad m k (x / 2 ^ k)

lshr_by-word : (w x k : ℕ) → k ≤ w → lshr_by (word w x) k ≡ some (word w (x % 2 ^ w / 2 ^ k))
unfolding lshr_by
lshr_by-word w x zero g =
    let same : x % 2 ^ w / 1 ≡ x % 2 ^ w = div-one (x % 2 ^ w) in rw (same, digits-mod w x)
lshr_by-word w x (suc k) g =
    rw
      (
        move_down w (suc k) x g,
        clear_down-for_down (suc k) w (w - suc k)
            (vec (digits (w - suc k) (x / 2 ^ suc k) ++ replicate (suc k) low) w)
            (omega (arith, g)),
        lshr_digits w (suc k) x g,
      )
      (fill_top (w - suc k) (suc k) w low (digits (w - suc k) (x / 2 ^ suc k))
        (length-digits (w - suc k) (x / 2 ^ suc k)))

lshr_by_out_of_bounds : (w x k : ℕ) → w < k → lshr_by (word w x) k ≡ none
unfolding lshr_by for_down
lshr_by_out_of_bounds w x zero g = absurd (omega arith)
lshr_by_out_of_bounds w x (suc k) g =
    let no_rounds : w - suc k ≡ 0 = omega arith in
    rw no_rounds (clear_down_below (suc k) w (zeros w) g)

module _ (w s x k : ℕ) (hs : s ≤ 64) (hk : k < 2 ^ s) (h : k ≤ 64) where
  lshr_amount : lshr (word w x) (word s k) ≡ lshr_by (word w x) k
  unfolding lshr
  lshr_amount =
      rw (is_binary_vector-word w x, is_binary_vector-word s k, get_shift_int-word s k hs hk h)

-- For all widths and values: `lshr` by at most the width divides by a power of two.
pub lshr-word :
    (w s x k : ℕ)
    → s ≤ 64
    → k < 2 ^ s
    → k ≤ 64
    → k ≤ w
    → lshr (word w x) (word s k) ≡ some (word w (x % 2 ^ w / 2 ^ k))
lshr-word w s x k hs hk h g = lshr_amount w s x k hs hk h ∙ lshr_by-word w x k g

-- `lshr` by more than the width comes to a write below index 0, for an amount of at most 64 in at most
-- 64 digits.
pub lshr_out_of_bounds :
    (w s x k : ℕ) → s ≤ 64 → k < 2 ^ s → k ≤ 64 → w < k → lshr (word w x) (word s k) ≡ none
lshr_out_of_bounds w s x k hs hk h g = lshr_amount w s x k hs hk h ∙ lshr_by_out_of_bounds w x k g
