-- ===== src/BitVec/Words.antt =====
-- The abstract view of a binary vector: `word w x` holds the lowest `w` binary digits of `x`.
use native.Mathlib.Nat.{
  div-one, zero-add, suc-add, add-mod_right, add-mul-mod_self_left, mul-one, mod-lt, div-eq_of_lt,
  mod-mod, add-mul-div_left,
}
use coreir.Base.{
  ℕ, zero, suc, ◌+◌, ◌*◌, ◌/◌, ◌%◌, ◌^◌, ◌≤◌, ◌<◌, ◌≡◌, refl, sym, ap, ◌∙◌, some, List, [], ◌∷◌,
  ◌++◌, length, get_elem?, replicate, arith,
}
use coreir.Base.Pow.{mod-two-pow-suc, div-two-pow-suc, two-pow-suc, two-pow-pos, div-two-pow-add}
use coreir.Quad.{QuadValue, low, high}
use coreir.BitVec.{QuadValueBitVector, zeros}

abbrev pub vec : List QuadValue → ℕ → QuadValueBitVector
vec bits n = record { bits = bits; n = n }

-- The digit of a bit: 0 is low, anything else is high.
abbrev pub bit : ℕ → QuadValue
bit zero = low
bit (suc x) = high

abbrev pub digits : ℕ → ℕ → List QuadValue
digits zero x = []
digits (suc w) x = bit (x % 2) ∷ digits w (x / 2)

abbrev pub word : ℕ → ℕ → QuadValueBitVector
word w x = vec (digits w x) w

pub length-digits : (w x : ℕ) → length (digits w x) ≡ w
length-digits zero x = refl
length-digits (suc w) x = ap suc (length-digits w (x / 2))

pub digits-zero : (w : ℕ) → digits w 0 ≡ replicate w low
digits-zero zero = refl
digits-zero (suc w) = ap (λ (t : List QuadValue). low ∷ t) (digits-zero w)

pub zeros-eq-word : (w : ℕ) → zeros w ≡ word w 0
unfolding zeros
zeros-eq-word w = ap (λ t. vec t w) (sym (digits-zero w))

-- Only the remainder by 2 ^ w counts.
pub digits-mod : (w x : ℕ) → digits w (x % 2 ^ w) ≡ digits w x
digits-mod zero x = refl
digits-mod (suc w) x =
    let e = mod-two-pow-suc x w in
    let half : x % 2 ^ suc w / 2 ≡ x / 2 % 2 ^ w = omega arith in
    let low_digit : x % 2 ^ suc w % 2 ≡ x % 2 = omega arith in
    rw (half, low_digit, digits-mod w (x / 2))

pub word-mod : (w x : ℕ) → word w (x % 2 ^ w) ≡ word w x
word-mod w x = ap (λ t. vec t w) (digits-mod w x)

-- Adding 2 ^ w changes nothing.
pub word_wraps : (w x : ℕ) → word w (x + 2 ^ w) ≡ word w x
word_wraps w x =
    sym (word-mod w (x + 2 ^ w)) ∙ ap (λ t. word w t) (add-mod_right x (2 ^ w)) ∙ word-mod w x

pub digits-append : (m n x : ℕ) → digits (m + n) x ≡ digits m x ++ digits n (x / 2 ^ m)
digits-append zero n x = rw (div-one, zero-add)
digits-append (suc m) n x = rw (suc-add, div-two-pow-suc x m, digits-append m n (x / 2))

-- Digit `k` of a word.
pub get_elem?-digits : (w x k : ℕ) → k < w → get_elem? (digits w x) k ≡ some (bit (x / 2 ^ k % 2))
get_elem?-digits zero x k h = absurd (omega arith)
get_elem?-digits (suc w) x zero h = rw div-one
get_elem?-digits (suc w) x (suc k) h =
    rw (div-two-pow-suc x k) (get_elem?-digits w (x / 2) k (omega arith))

-- Multiples of 2 ^ w do not count.
pub word_cong : (w x y q : ℕ) → x ≡ y + 2 ^ w * q → word w x ≡ word w y
word_cong w x y q e =
    let same : x % 2 ^ w ≡ y % 2 ^ w =
      ap (λ (t : ℕ). t % 2 ^ w) e ∙ add-mul-mod_self_left y (2 ^ w) q in
    sym (word-mod w x) ∙ ap (λ t. word w t) same ∙ word-mod w y

-- Digits behind zeros, and zeros behind digits.
pub digits-mul_pow : (i m x : ℕ) → digits (i + m) (x * 2 ^ i) ≡ replicate i low ++ digits m x
digits-mul_pow zero m x = rw (zero-add, mul-one)
digits-mul_pow (suc i) m x =
    let e : x * 2 ^ suc i ≡ 2 * (x * 2 ^ i) =
      omega (arith, ap (λ (t : ℕ). x * t) (two-pow-suc i)) in
    let low_digit : x * 2 ^ suc i % 2 ≡ 0 = omega arith in
    let half : x * 2 ^ suc i / 2 ≡ x * 2 ^ i = omega arith in
    rw (suc-add, low_digit, half, digits-mul_pow i m x)

pub digits_pad : (w m x : ℕ) → digits (w + m) (x % 2 ^ w) ≡ digits w x ++ replicate m low
digits_pad w m x =
    rw (digits-append, digits-mod, div-eq_of_lt (mod-lt x (two-pow-pos w)), digits-zero)

-- Digits above digits.
pub digits_join : (m n x y : ℕ) → digits (m + n) (x % 2 ^ m + 2 ^ m * y) ≡ digits m x ++ digits n y
digits_join m n x y =
    let pos = two-pow-pos m in
    let low_part : digits m (x % 2 ^ m + 2 ^ m * y) ≡ digits m x =
      sym (digits-mod m _)
      ∙ ap (digits m) (add-mul-mod_self_left (x % 2 ^ m) (2 ^ m) y)
      ∙ ap (digits m) (mod-mod x (2 ^ m))
      ∙ digits-mod m x in
    let high_part : (x % 2 ^ m + 2 ^ m * y) / 2 ^ m ≡ y =
      add-mul-div_left (x % 2 ^ m) y pos
      ∙ ap (λ (t : ℕ). t + y) (div-eq_of_lt (mod-lt x pos))
      ∙ zero-add y in
    digits-append m n _ ∙ rw (low_part, high_part)

-- Reading from place `s` on is reading the quotient by 2 ^ s.
pub get_elem?-digits_above :
    (w x s m k : ℕ)
    → s + m ≤ w
    → k < m
    → get_elem? (digits w x) (s + k) ≡ get_elem? (digits m (x / 2 ^ s)) k
get_elem?-digits_above w x s m k h g =
    get_elem?-digits w x (s + k) (omega arith)
    ∙ ap (λ (t : ℕ). some (bit (t % 2))) (div-two-pow-add x s k)
    ∙ sym (get_elem?-digits m (x / 2 ^ s) k g)
