-- ===== src/BitVec/Arith/Mul.antt =====
-- `mul_general_width_bv` multiplies modulo 2 ^ N, by shifting and adding in twice the width.
use native.Mathlib.Nat.{div-add-mod, zero-add, mod-one}
use coreir.Base.{
  ℕ, zero, suc, ◌+◌, ◌-◌, ◌*◌, ◌/◌, ◌%◌, ◌^◌, ◌≤◌, ◌<◌, ◌≡◌, sym, ap, ◌∙◌, inl, inr, some, List,
  ◌++◌, length, replicate, length-replicate, replicate-append, get_elem?, get_elem?-append_lt,
  for_up, arith,
}
use coreir.Base.Pow.{parity, two-pow-suc, mod-two-pow-suc}
use coreir.Quad.{QuadValue, low, high}
use coreir.Quad
use coreir.BitVec.{QuadValueBitVector, zeros, get}
use coreir.BitVec.Words.{
  bit, digits, word, zeros-eq-word, length-digits, word_cong, digits-mul_pow, digits_pad,
  digits-append,
}
use coreir.BitVec.Fill.{fill_up, fill_zeros, Reads, Reads-head, Reads-tail, Reads-self}
use coreir.BitVec.Arith.{shifted, mul_step, mul_general_width_bv}
use coreir.BitVec.Arith.Add.{add-word}

-- `2 * w` places, of which `i` stand below and the rest above a block of `w`.
zeros_split :
    (w i : ℕ)
    → i ≤ w
    → replicate (2 * w) low ≡ replicate i low ++ (replicate w low ++ replicate (w - i) low)
zeros_split w i h =
    let e : i + (w + (w - i)) ≡ 2 * w = omega arith in
    ap (λ (t : ℕ). replicate t low) (sym e)
    ∙ sym (replicate-append i (w + (w - i)) low)
    ∙ ap (λ (t : List QuadValue). replicate i low ++ t) (sym (replicate-append w (w - i) low))

shifted_digits :
    (w i x : ℕ)
    → i ≤ w
    → digits (2 * w) (x % 2 ^ w * 2 ^ i) ≡ replicate i low ++ (digits w x ++ replicate (w - i) low)
shifted_digits w i x h =
    let e : 2 * w ≡ i + (w + (w - i)) = omega arith in rw (e, digits-mul_pow, digits_pad)

shifted-word : (w i x : ℕ) → i ≤ w → shifted (word w x) i ≡ some (word (2 * w) (x % 2 ^ w * 2 ^ i))
unfolding shifted
shifted-word w i x h =
    let filled =
      fill_up (λ j. j + i) (get (word w x)) (digits w x) (replicate w low) (replicate i low)
        (replicate (w - i) low) (2 * w) 0 (length-replicate w low ∙ sym (length-digits w x))
        (Reads-self (digits w x) w) (λ k hk. omega (arith, length-replicate i low)) in
    rw (zeros_split w i h, shifted_digits w i x h) (rw (length-digits w x) at filled)

-- One round of the outer loop, by the digit of the multiplier.
module _ (w i x s : ℕ) (b : QuadValueBitVector) (below : i < w) where
  mul_step_one :
      get b i ≡ some high
      → mul_step (word w x) b i (word (2 * w) s) ≡ some (word (2 * w) (s + x % 2 ^ w * 2 ^ i))
  unfolding Quad.eq
  mul_step_one h = rw (h, shifted-word w i x (omega arith)) (add-word (2 * w) s (x % 2 ^ w * 2 ^ i))

  mul_step_zero :
      get b i ≡ some low → mul_step (word w x) b i (word (2 * w) s) ≡ some (word (2 * w) s)
  unfolding Quad.eq
  mul_step_zero h = rw h

double : (a p q c : ℕ) → a * (2 * p) * q + a * p * c ≡ a * p * (q * 2 + c)
double a p q c = omega arith

next_zero :
    (a i k s y : ℕ)
    → y % 2 ≡ 0
    → s + a * 2 ^ suc i * (y / 2 % 2 ^ k) ≡ s + a * 2 ^ i * (y % 2 ^ suc k)
next_zero a i k s y h =
    rw (mod-two-pow-suc y k, h, two-pow-suc i) (omega (arith, double a (2 ^ i) (y / 2 % 2 ^ k) 0))

next_one :
    (a i k s y : ℕ)
    → y % 2 ≡ 1
    → s + a * 2 ^ i + a * 2 ^ suc i * (y / 2 % 2 ^ k) ≡ s + a * 2 ^ i * (y % 2 ^ suc k)
next_one a i k s y h =
    rw (mod-two-pow-suc y k, h, two-pow-suc i) (omega (arith, double a (2 ^ i) (y / 2 % 2 ^ k) 1))

mul_loop :
    (w k i x y s : ℕ) (b : QuadValueBitVector)
    → i + k ≡ w
    → Reads b i (digits k y)
    → for_up (mul_step (word w x) b) k i (word (2 * w) s)
      ≡ some (word (2 * w) (s + x % 2 ^ w * 2 ^ i * (y % 2 ^ k)))
unfolding for_up
mul_loop w zero i x y s b e rb = ap (λ (t : ℕ). some (word (2 * w) t)) (rw (mod-one) (omega arith))
mul_loop w (suc k) i x y s b e rb =
    let gb = Reads-head b i (bit (y % 2)) (digits k (y / 2)) rb in
    let rest = λ (t : ℕ).
      mul_loop w k (suc i) x (y / 2) t b (omega arith)
        (Reads-tail b i (bit (y % 2)) (digits k (y / 2)) rb) in
    elim (parity y) [
      | inl even ↦
          rw (mul_step_zero w i x s b (omega arith) (rw even at gb))
            (rest s ∙ ap (λ (t : ℕ). some (word (2 * w) t)) (next_zero (x % 2 ^ w) i k s y even))
      | inr odd ↦ rw (mul_step_one w i x s b (omega arith) (rw odd at gb)) (
          rest (s + x % 2 ^ w * 2 ^ i)
          ∙ ap (λ (t : ℕ). some (word (2 * w) t)) (next_one (x % 2 ^ w) i k s y odd))
    ]

-- The product of the remainders differs from the product by a multiple of the modulus.
mul_remainders : (x y m : ℕ) → x * y ≡ x % m * (y % m) + m * (x / m * y + x % m * (y / m))
mul_remainders x y m =
    let a = x / m in
    let b = y / m in
    let r = x % m in
    let t = y % m in
    let ex : m * a + r ≡ x = div-add-mod x m in
    let ey : m * b + t ≡ y = div-add-mod y m in
    ap (λ (z : ℕ). z * y) (sym ex) ∙ omega (arith, ap (λ (z : ℕ). r * z) ey)

-- The low half of a vector of twice the width.
get_low_half : (w z k : ℕ) → k < w → get (word (2 * w) z) k ≡ get_elem? (digits w z) k
unfolding get
get_low_half w z k h =
    let e : 2 * w ≡ w + w = omega arith in
    let below : k < length (digits w z) = omega (arith, length-digits w z) in
    rw (e, digits-append) (get_elem?-append_lt (digits w z) (digits w (z / 2 ^ w)) k below)

-- For all widths and values: the product of two binary vectors is the vector of the product.
pub mul-word : (w x y : ℕ) → mul_general_width_bv (word w x) (word w y) ≡ some (word w (x * y))
unfolding mul_general_width_bv
mul-word w x y =
    let z = x % 2 ^ w * 2 ^ 0 * (y % 2 ^ w) in
    let full : for_up (mul_step (word w x) (word w y)) w 0 (zeros (2 * w)) ≡ some (word (2 * w) z) =
      ap (for_up (mul_step (word w x) (word w y)) w 0) (zeros-eq-word (2 * w))
      ∙ rw zero-add at (mul_loop w w 0 x y 0 (word w y) (zero-add w) (Reads-self (digits w y) w)) in
    let cut =
      fill_zeros (get (word (2 * w) z)) (digits w z) w (length-digits w z) (get_low_half w z) in
    let same : x * y ≡ z + 2 ^ w * (x / 2 ^ w * y + x % 2 ^ w * (y / 2 ^ w)) =
      mul_remainders x y (2 ^ w) ∙ omega arith in
    rw full (cut ∙ ap some (sym (word_cong w (x * y) z _ same)))
