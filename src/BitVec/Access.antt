-- ===== src/BitVec/Access.antt =====
-- Conversions and element-wise tests on binary vectors: the constructor from an int, `to_type`,
-- `equals`, `is_binary` and the search loops behind them.
use native.Mathlib.Nat.{mod-add-mod, div-eq_of_lt, mod-one, mod-lt, mod-eq_of_lt}
use coreir.Base.{
  ℕ, zero, suc, ◌+◌, ◌*◌, ◌/◌, ◌%◌, ◌^◌, ◌≤◌, ◌<◌, ◌≡◌, refl, sym, ap, ◌∙◌, inl, inr, ◌>>=◌, Bool,
  true, false, Option, some, ltb, ◌==◌, if◌then◌else◌, Bool-cases, for_up, bit_and, arith,
}
use coreir.Base.Bits.{bit_and-one}
use coreir.Base.Pow.{two-pow-suc, two-pow-pos, two-pow_mono, mod-two-pow-suc}
use coreir.Quad.{QuadValue, low, high, quad_value, is_binary}
use coreir.Quad
use coreir.BitVec.{
  QuadValueBitVector, get, from_int, all_up, is_binary_vector, equals, to_type, to_type_step,
}
use coreir.BitVec.Words.{bit, digits, word, length-digits, get_elem?-digits}
use coreir.BitVec.Fill.{fill_zeros, Reads, Reads-head, Reads-tail, Reads-self}

same_tests : (a b p q : ℕ) → (p == q) ≡ true → (a == b) ≡ (a * 2 + p == b * 2 + q)
same_tests a b p q h = ground arith

other_tests : (a b p q : ℕ) → p < 2 → q < 2 → (p == q) ≡ false → false ≡ (a * 2 + p == b * 2 + q)
other_tests a b p q hp hq h = ground arith

pub ==_refl : (w : ℕ) → (w == w) ≡ true
==_refl w = ground arith

quad_value-bit : (m : ℕ) → m < 2 → quad_value m ≡ some (bit m)
quad_value-bit zero h = refl
quad_value-bit (suc zero) h = refl
quad_value-bit (suc (suc m)) h = absurd (omega arith)

-- The digit that the constructor computes by shift and mask.
int_digit :
    (val i : ℕ)
    → val < 2 ^ 32
    → quad_value (if ltb i 32 then bit_and (val / 2 ^ i) 1 else 0) ≡ some (bit (val / 2 ^ i % 2))
int_digit val i h = elim (Bool-cases (ltb i 32)) [
  | inl below ↦ rw (below, bit_and-one) (quad_value-bit (val / 2 ^ i % 2) (omega arith))
  | inr above ↦
      let i_large : 32 ≤ i = ground arith in
      let none_left : val / 2 ^ i ≡ 0 = div-eq_of_lt (omega (arith, two-pow_mono 32 i i_large)) in
      rw (above, none_left)
]

-- The vector of `n` bits that is made from an int is its word.
pub from_int-word : (n val : ℕ) → val < 2 ^ 32 → from_int n val ≡ some (word n val)
unfolding from_int
from_int-word n val h =
    fill_zeros _ (digits n val) n (length-digits n val)
      (λ k hk. int_digit val k h ∙ sym (get_elem?-digits n val k hk))

-- An exponent is doubled modulo `m`.
double_mod : (p m : ℕ) → p % m * 2 % m ≡ 2 * p % m
double_mod p m =
    let e : p % m * 2 ≡ p % m + p % m = omega arith in
    let f : p + p % m ≡ p % m + p = omega arith in
    let g : p + p ≡ 2 * p = omega arith in rw (e, mod-add-mod, f, mod-add-mod, g)

add_digit_mod : (m tmp p o r : ℕ) → o < 2 → ((tmp + p % m * o) % m + r) % m ≡ (tmp + p * o + r) % m
add_digit_mod m tmp p zero r h =
    let e : tmp + p % m * 0 ≡ tmp = omega arith in
    let f : tmp + p * 0 ≡ tmp = omega arith in rw (e, f) (mod-add-mod tmp m r)
add_digit_mod m tmp p (suc zero) r h =
    let e : tmp + p % m * 1 + r ≡ p % m + (tmp + r) = omega arith in
    let f : tmp + p * 1 + r ≡ p + (tmp + r) = omega arith in
    mod-add-mod (tmp + p % m * 1) m r ∙ rw (e, f) (mod-add-mod p m (tmp + r))
add_digit_mod m tmp p (suc (suc o)) r h = absurd (omega arith)

accumulate :
    (m tmp p y k : ℕ)
    → ((tmp + p % m * (y % 2)) % m + 2 * p * (y / 2 % 2 ^ k)) % m ≡ (tmp + p * (y % 2 ^ suc k)) % m
accumulate m tmp p y k =
    let e : tmp + p * (y % 2) + 2 * p * (y / 2 % 2 ^ k) ≡ tmp + p * (y / 2 % 2 ^ k * 2 + y % 2) =
      omega arith in
    add_digit_mod m tmp p (y % 2) (2 * p * (y / 2 % 2 ^ k)) (omega arith)
    ∙ rw (e, mod-two-pow-suc y k)

module _ (t : ℕ) (v : QuadValueBitVector) where
  step_bit :
      (i tmp exp o : ℕ)
      → o < 2
      → get v i ≡ some (bit o)
      → to_type_step t v i (tmp, exp) ≡ some ((tmp + exp * o) % 2 ^ t, exp * 2 % 2 ^ t)
  unfolding get
  step_bit i tmp exp zero h g = rw g
  step_bit i tmp exp (suc zero) h g = rw g
  step_bit i tmp exp (suc (suc o)) h g = absurd (omega arith)

  to_type_loop :
      (k i tmp y : ℕ)
      → Reads v i (digits k y)
      → tmp < 2 ^ t
      → (for_up (to_type_step t v) k i (tmp, 2 ^ i % 2 ^ t) >>= λ (r : ℕ × ℕ). some r.0)
        ≡ some ((tmp + 2 ^ i * (y % 2 ^ k)) % 2 ^ t)
  unfolding for_up
  to_type_loop zero i tmp y rv h =
      let e : tmp + 2 ^ i * 0 ≡ tmp = omega arith in rw (mod-one, e, mod-eq_of_lt h)
  to_type_loop (suc k) i tmp y rv h =
      let next = (tmp + 2 ^ i % 2 ^ t * (y % 2)) % 2 ^ t in
      let rest =
        to_type_loop k (suc i) next (y / 2) (Reads-tail v i (bit (y % 2)) (digits k (y / 2)) rv)
          (mod-lt _ (two-pow-pos t)) in
      let sum = accumulate (2 ^ t) tmp (2 ^ i) y k in
      rw
        (
          step_bit i tmp (2 ^ i % 2 ^ t) (y % 2) (omega arith)
              (Reads-head v i (bit (y % 2)) (digits k (y / 2)) rv),
          double_mod (2 ^ i) (2 ^ t),
          ← two-pow-suc i,
        )
        (rest ∙ rw (two-pow-suc i, sum))

-- The number that a binary vector is converted to, in an unsigned type of `t` bits.
pub to_type-word : (t w x : ℕ) → 0 < t → to_type t (word w x) ≡ some (x % 2 ^ w % 2 ^ t)
unfolding to_type
to_type-word t w x h =
    let one_small : 1 < 2 ^ t = omega (arith, two-pow_mono 1 t h) in
    let loop = to_type_loop t (word w x) w 0 0 x (Reads-self (digits w x) w) (two-pow-pos t) in
    let e : 0 + 2 ^ 0 * (x % 2 ^ w) ≡ x % 2 ^ w = omega arith in
    rw (mod-eq_of_lt one_small, e) at loop

pub all_up-true :
    (test : ℕ → Option Bool) (k i : ℕ)
    → test i ≡ some true
    → all_up test (suc k) i ≡ all_up test k (suc i)
unfolding all_up
all_up-true test k i h = rw h

pub all_up-false :
    (test : ℕ → Option Bool) (k i : ℕ) → test i ≡ some false → all_up test (suc k) i ≡ some false
unfolding all_up
all_up-false test k i h = rw h

pub eq-bit : (m o : ℕ) → m < 2 → o < 2 → Quad.eq (bit m) (bit o) ≡ some (m == o)
unfolding Quad.eq
eq-bit zero zero h g = refl
eq-bit zero (suc zero) h g = refl
eq-bit (suc zero) zero h g = refl
eq-bit (suc zero) (suc zero) h g = refl
eq-bit (suc (suc m)) o h g = absurd (omega arith)
eq-bit m (suc (suc o)) h g = absurd (omega arith)

-- Equality of digits from place `i` on.
module _ (a b : QuadValueBitVector) where
  abbrev same_digit : ℕ → Option Bool
  same_digit i = get a i >>= λ p. get b i >>= λ q. Quad.eq p q

  same_bits :
      (i m o : ℕ)
      → m < 2
      → o < 2
      → get a i ≡ some (bit m)
      → get b i ≡ some (bit o)
      → same_digit i ≡ some (m == o)
  same_bits i m o hm ho ga gb = rw (ga, gb) (eq-bit m o hm ho)

  all_equal :
      (k i x y : ℕ)
      → Reads a i (digits k x)
      → Reads b i (digits k y)
      → all_up same_digit k i ≡ some (x % 2 ^ k == y % 2 ^ k)
  all_equal zero i x y ra rb = unfold all_up in rw (mod-one, mod-one)
  all_equal (suc k) i x y ra rb =
      let here =
        same_bits i (x % 2) (y % 2) (omega arith) (omega arith)
          (Reads-head a i (bit (x % 2)) (digits k (x / 2)) ra)
          (Reads-head b i (bit (y % 2)) (digits k (y / 2)) rb) in
      let rest =
        all_equal k (suc i) (x / 2) (y / 2) (Reads-tail a i (bit (x % 2)) (digits k (x / 2)) ra)
          (Reads-tail b i (bit (y % 2)) (digits k (y / 2)) rb) in
      rw (mod-two-pow-suc x k, mod-two-pow-suc y k)
        (elim (Bool-cases (x % 2 == y % 2)) [
          | inl same ↦
              all_up-true same_digit k i (here ∙ ap some same)
              ∙ rest
              ∙ ap some (same_tests (x / 2 % 2 ^ k) (y / 2 % 2 ^ k) (x % 2) (y % 2) same)
          | inr other ↦
              all_up-false same_digit k i (here ∙ ap some other)
              ∙ ap some (
                  other_tests (x / 2 % 2 ^ k) (y / 2 % 2 ^ k) (x % 2) (y % 2) (omega arith)
                    (omega arith) other)
        ])

-- For all widths and values: equality of binary vectors is equality modulo 2 ^ w.
pub equals-word : (w x y : ℕ) → equals (word w x) (word w y) ≡ some (x % 2 ^ w == y % 2 ^ w)
unfolding equals
equals-word w x y = rw (==_refl w) (
    all_equal (word w x) (word w y) w 0 x y (Reads-self (digits w x) w) (Reads-self (digits w y) w))

is_binary-bit : (m : ℕ) → is_binary (bit m) ≡ true
is_binary-bit zero = refl
is_binary-bit (suc m) = refl

all_binary :
    (v : QuadValueBitVector) (k i x : ℕ)
    → Reads v i (digits k x)
    → all_up (λ j. get v j >>= λ q. some (is_binary q)) k i ≡ some true
all_binary v zero i x rv = unfold all_up in refl
all_binary v (suc k) i x rv =
    let here = Reads-head v i (bit (x % 2)) (digits k (x / 2)) rv in
    all_up-true _ k i (rw here (ap some (is_binary-bit (x % 2))))
    ∙ all_binary v k (suc i) (x / 2) (Reads-tail v i (bit (x % 2)) (digits k (x / 2)) rv)

pub is_binary_vector-word : (w x : ℕ) → is_binary_vector (word w x) ≡ some true
unfolding is_binary_vector
is_binary_vector-word w x = all_binary (word w x) w 0 x (Reads-self (digits w x) w)
