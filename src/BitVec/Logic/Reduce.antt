-- ===== src/BitVec/Logic/Reduce.antt =====
-- The reductions `andr`, `orr` and `xorr` on binary vectors.
use native.Mathlib.Nat.{mod-one, add-zero, zero-add}
use coreir.Base.{
  ℕ, zero, suc, ◌+◌, ◌-◌, ◌*◌, ◌/◌, ◌%◌, ◌^◌, ◌<◌, ◌≡◌, refl, ◌∙◌, inl, inr, some, ◌==◌,
  if◌then◌else◌, for_up, arith,
}
use coreir.Base.Pow.{parity, two-pow-suc, two-pow-pos, mod-two-pow-suc}
use coreir.Quad.{QuadValue, low, high}
use coreir.Quad
use coreir.BitVec.{QuadValueBitVector, get, from_string}
use coreir.BitVec.Words.{bit, digits, word}
use coreir.BitVec.Fill.{Reads, Reads-head, Reads-tail, Reads-self}
use coreir.BitVec.Logic.{zero_bit, one_bit, andr_loop, andr, orr_loop, orr, count_step, xorr}

zero_bit_lem : zero_bit ≡ some (word 1 0)
unfolding from_string
zero_bit_lem = refl

one_bit_lem : one_bit ≡ some (word 1 1)
unfolding from_string
one_bit_lem = refl

module _ (a : QuadValueBitVector) (k i : ℕ) where
  andr_high : get a i ≡ some high → andr_loop a (suc k) i ≡ andr_loop a k (suc i)
  unfolding andr_loop
  andr_high h = rw h

  andr_low : get a i ≡ some low → andr_loop a (suc k) i ≡ some (word 1 0)
  unfolding andr_loop
  andr_low h = rw h zero_bit_lem

  orr_low : get a i ≡ some low → orr_loop a (suc k) i ≡ orr_loop a k (suc i)
  unfolding orr_loop
  orr_low h = rw h

  orr_high : get a i ≡ some high → orr_loop a (suc k) i ≡ some (word 1 1)
  unfolding orr_loop
  orr_high h = rw h one_bit_lem

andr_done : (a : QuadValueBitVector) (i : ℕ) → andr_loop a 0 i ≡ some (word 1 1)
unfolding andr_loop
andr_done a i = one_bit_lem

orr_done : (a : QuadValueBitVector) (i : ℕ) → orr_loop a 0 i ≡ some (word 1 0)
unfolding orr_loop
orr_done a i = zero_bit_lem

-- The results, as functions of the number and the width.
abbrev pub all_ones : ℕ → ℕ → ℕ
all_ones w x = if x % 2 ^ w == 2 ^ w - 1 then 1 else 0

abbrev pub any_one : ℕ → ℕ → ℕ
any_one w x = if x % 2 ^ w == 0 then 0 else 1

all_ones_odd : (k x : ℕ) → x % 2 ≡ 1 → all_ones (suc k) x ≡ all_ones k (x / 2)
all_ones_odd k x h =
    rw (mod-two-pow-suc x k, h, two-pow-suc k) (tests (x / 2 % 2 ^ k) (2 ^ k) (two-pow-pos k))
  where
    tests :
        (r p : ℕ)
        → 0 < p
        → ◌≡◌ {A = ℕ} (if r * 2 + 1 == 2 * p - 1 then 1 else 0) (if r == p - 1 then 1 else 0)
    tests r p pos = ground arith

all_ones_even : (k x : ℕ) → x % 2 ≡ 0 → all_ones (suc k) x ≡ 0
all_ones_even k x h =
    rw (mod-two-pow-suc x k, h, two-pow-suc k) (tests (x / 2 % 2 ^ k) (2 ^ k) (two-pow-pos k))
  where
    tests : (r p : ℕ) → 0 < p → ◌≡◌ {A = ℕ} (if r * 2 + 0 == 2 * p - 1 then 1 else 0) 0
    tests r p pos = ground arith

any_one_even : (k x : ℕ) → x % 2 ≡ 0 → any_one (suc k) x ≡ any_one k (x / 2)
any_one_even k x h = rw (mod-two-pow-suc x k, h) (tests (x / 2 % 2 ^ k))
  where
    tests : (r : ℕ) → ◌≡◌ {A = ℕ} (if r * 2 + 0 == 0 then 0 else 1) (if r == 0 then 0 else 1)
    tests r = ground arith

any_one_odd : (k x : ℕ) → x % 2 ≡ 1 → any_one (suc k) x ≡ 1
any_one_odd k x h = rw (mod-two-pow-suc x k, h) (tests (x / 2 % 2 ^ k))
  where
    tests : (r : ℕ) → ◌≡◌ {A = ℕ} (if r * 2 + 1 == 0 then 0 else 1) 1
    tests r = ground arith

module _ (a : QuadValueBitVector) where
  andr_loop-digits :
      (k i x : ℕ) → Reads a i (digits k x) → andr_loop a k i ≡ some (word 1 (all_ones k x))
  andr_loop-digits zero i x r = rw mod-one (andr_done a i)
  andr_loop-digits (suc k) i x r =
      let g = Reads-head a i (bit (x % 2)) (digits k (x / 2)) r in
      let rest =
        andr_loop-digits k (suc i) (x / 2) (Reads-tail a i (bit (x % 2)) (digits k (x / 2)) r) in
      elim (parity x) [
        | inl even ↦ rw (all_ones_even k x even) (andr_low a k i (rw even at g))
        | inr odd ↦ rw (all_ones_odd k x odd) (andr_high a k i (rw odd at g) ∙ rest)
      ]

  orr_loop-digits :
      (k i x : ℕ) → Reads a i (digits k x) → orr_loop a k i ≡ some (word 1 (any_one k x))
  orr_loop-digits zero i x r = rw mod-one (orr_done a i)
  orr_loop-digits (suc k) i x r =
      let g = Reads-head a i (bit (x % 2)) (digits k (x / 2)) r in
      let rest =
        orr_loop-digits k (suc i) (x / 2) (Reads-tail a i (bit (x % 2)) (digits k (x / 2)) r) in
      elim (parity x) [
        | inl even ↦ rw (any_one_even k x even) (orr_low a k i (rw even at g) ∙ rest)
        | inr odd ↦ rw (any_one_odd k x odd) (orr_high a k i (rw odd at g))
      ]

-- The set digits of a number of `w` digits.
abbrev pub ones : ℕ → ℕ → ℕ
ones zero x = 0
ones (suc w) x = x % 2 + ones w (x / 2)

count_round :
    (a : QuadValueBitVector) (i m c : ℕ)
    → m < 2
    → get a i ≡ some (bit m)
    → count_step a i c ≡ some (c + m)
unfolding Quad.eq
count_round a i zero c h g = rw (g, add-zero)
count_round a i (suc zero) c h g = rw g
count_round a i (suc (suc m)) c h g = absurd (omega arith)

count_loop :
    (a : QuadValueBitVector) (k i x c : ℕ)
    → Reads a i (digits k x)
    → for_up (count_step a) k i c ≡ some (c + ones k x)
unfolding for_up
count_loop a zero i x c r = rw add-zero
count_loop a (suc k) i x c r =
    let e : c + x % 2 + ones k (x / 2) ≡ c + (x % 2 + ones k (x / 2)) = omega arith in
    rw (count_round a i (x % 2) c (omega arith) (Reads-head a i (bit (x % 2)) (digits k (x / 2)) r))
      (count_loop a k (suc i) (x / 2) (c + x % 2)
          (Reads-tail a i (bit (x % 2)) (digits k (x / 2)) r)
        ∙ rw e)

one_digit : (m : ℕ) → m < 2 → (if m == 0 then zero_bit else one_bit) ≡ some (word 1 m)
one_digit zero h = zero_bit_lem
one_digit (suc zero) h = one_bit_lem
one_digit (suc (suc m)) h = absurd (omega arith)

-- For all widths and values: `andr` tells whether all digits are set, `orr` whether any is, and
-- `xorr` is the parity of the number of set digits.
pub reductions-word :
    (w x : ℕ)
    → (andr (word w x) ≡ some (word 1 (all_ones w x)))
      × (orr (word w x) ≡ some (word 1 (any_one w x)))
      × (xorr (word w x) ≡ some (word 1 (ones w x % 2)))
unfolding andr orr xorr
reductions-word w x = (
  andr_loop-digits (word w x) w 0 x (Reads-self (digits w x) w),
  orr_loop-digits (word w x) w 0 x (Reads-self (digits w x) w),
  rw (count_loop (word w x) w 0 x 0 (Reads-self (digits w x) w))
      (rw zero-add (one_digit (ones w x % 2) (omega arith))),
)
