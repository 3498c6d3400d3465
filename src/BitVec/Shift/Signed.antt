-- ===== src/BitVec/Shift/Signed.antt =====
-- `ashr` on binary vectors, by an amount of at most the width.
use native.Mathlib.Nat.{mod-eq_of_lt, div-one}
use coreir.Base.{
  ℕ, zero, suc, ◌+◌, ◌-◌, ◌*◌, ◌/◌, ◌%◌, ◌^◌, ◌≤◌, ◌<◌, ◌≡◌, refl, sym, ap, ◌∙◌, some, ◌++◌, min,
  ◌==◌, if◌then◌else◌, replicate, arith, false,
}
use coreir.Base.Pow.{two-pow-suc, two-pow-pos}
use coreir.Quad.{high}
use coreir.BitVec.{get, high_bit}
use coreir.BitVec.Words.{
  bit, digits, word, length-digits, word-mod, digits-zero, get_elem?-digits, digits_join,
}
use coreir.BitVec.Access.{is_binary_vector-word, from_int-word, equals-word}
use coreir.BitVec.Shift.{ashr}
use coreir.BitVec.Shift.Amounts.{get_shift_int-word, move_down, fill_top}

-- The digits above the sign are copies of it.
abbrev pub ashr_value : (v x k : ℕ) → ℕ
ashr_value v x k =
    x / 2 ^ k % 2 ^ (suc v - k) + 2 ^ (suc v - k) * (if x / 2 ^ v % 2 == 1 then 2 ^ k - 1 else 0)

all_high : (k : ℕ) → digits k (2 ^ k - 1) ≡ replicate k high
all_high zero = refl
all_high (suc k) =
    let e = two-pow-suc k in
    let pos = two-pow-pos k in
    let low_digit : (2 ^ suc k - 1) % 2 ≡ 1 = omega (arith, e, pos) in
    let half : (2 ^ suc k - 1) / 2 ≡ 2 ^ k - 1 = omega (arith, e, pos) in
    rw (low_digit, half, all_high k)

sign_digits : (k c : ℕ) → c < 2 → replicate k (bit c) ≡ digits k (if c == 1 then 2 ^ k - 1 else 0)
sign_digits k zero h = sym (digits-zero k)
sign_digits k (suc zero) h = sym (all_high k)
sign_digits k (suc (suc c)) h = absurd (omega (arith, h))

joined :
    (v x k : ℕ)
    → k ≤ suc v
    → digits (suc v) (ashr_value v x k)
      ≡ digits (suc v - k) (x / 2 ^ k) ++ replicate k (bit (x / 2 ^ v % 2))
joined v x k h =
    let m = suc v - k in
    let width : suc v ≡ m + k = omega (arith, h) in
    let sign = if x / 2 ^ v % 2 == 1 then 2 ^ k - 1 else 0 in
    ap (λ w. digits w (x / 2 ^ k % 2 ^ m + 2 ^ m * sign)) width
    ∙ digits_join m k (x / 2 ^ k) sign
    ∙ ap (λ ds. digits m (x / 2 ^ k) ++ ds) (sym (sign_digits k (x / 2 ^ v % 2) (omega arith)))

smaller : (k w : ℕ) → k ≤ w → min k w ≡ k
smaller k w h = ground (arith, h)

not_zero : (k : ℕ) → (suc k == 0) ≡ false
not_zero k = ground arith

-- For all widths above 0 and all values: `ashr` by at most the width moves the digits down and copies
-- the sign into the places above, for an amount of at most 64 in at most 64 digits.
pub ashr-word :
    (v s x k : ℕ)
    → s ≤ 64
    → k < 2 ^ s
    → k ≤ 64
    → k ≤ suc v
    → ashr (word (suc v) x) (word s k) ≡ some (word (suc v) (ashr_value v x k))
unfolding ashr get high_bit
ashr-word v s x zero hs hk h g =
    let none_left : ashr_value v x zero ≡ x % 2 ^ suc v = nothing v x in
    rw (
      is_binary_vector-word (suc v) x,
      is_binary_vector-word s 0,
      from_int-word s 0 (omega arith),
      equals-word s 0 0,
      mod-eq_of_lt hk,
      none_left,
      word-mod (suc v) x,
    )
  where
    sign_none : (b : ℕ) → (if b == 1 then 1 - 1 else 0) ≡ 0
    sign_none b = ground arith

    nothing : (v x : ℕ) → ashr_value v x 0 ≡ x % 2 ^ suc v
    nothing v x =
        let whole : suc v - 0 ≡ suc v = omega arith in
        rw (div-one x, sign_none (x / 2 ^ v % 2), whole) (omega arith)
ashr-word v s x (suc k) hs hk h g =
    let read = get_elem?-digits (suc v) x v (omega arith) in
    rw
      (
        is_binary_vector-word (suc v) x,
        is_binary_vector-word s (suc k),
        from_int-word s 0 (omega arith),
        equals-word s (suc k) 0,
        mod-eq_of_lt hk,
        mod-eq_of_lt (two-pow-pos s),
        not_zero k,
        get_shift_int-word s (suc k) hs hk h,
        read,
        move_down (suc v) (suc k) x g,
        smaller (suc k) (suc v) g,
        joined v x (suc k) g,
      )
      (fill_top (suc v - suc k) (suc k) (suc v) (bit (x / 2 ^ v % 2))
        (digits (suc v - suc k) (x / 2 ^ suc k)) (length-digits (suc v - suc k) (x / 2 ^ suc k)))
