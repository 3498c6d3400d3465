-- ===== src/Base/Bits.antt =====
-- The native bit operations as recursions on the lowest binary digit.
use Prim.Native.Nat.{
  ℕ, zero, suc, ◌+◌, ◌*◌, ◌/◌, ◌%◌, ◌≤◌, min, max, bit_and, bit_or, bit_xor, digits, bitwise,
  differ, bit_and-bitwise, bit_or-bitwise, bit_xor-bitwise,
}
use mathlib.Core.Path.{◌≡◌, refl, ap, ◌∙◌, sym}
use mathlib.Core.WellFounded
use native.Mathlib.Omega.{arith}
use coreir.Base.Order.{lt_wf}

-- `combine` joins two digits, and `rest` is what remains when the first number has run out.
module _ (rest : ℕ → ℕ) (combine : ℕ → ℕ → ℕ) where
  abbrev join : ℕ → ℕ → ℕ → ℕ
  join a b upper = upper * 2 + combine (a % 2) (b % 2)

  -- Rounds beyond the first number's own size do nothing.
  spare_rounds :
      (bound rounds a b : ℕ)
      → rounds ≤ bound
      → a ≤ rounds
      → digits rest combine rounds a b ≡ digits rest combine a a b
  spare_rounds bound zero zero b p q = refl
  spare_rounds bound (suc rounds) zero b p q = refl
  spare_rounds bound zero (suc a) b p q = elim q [ ]
  spare_rounds zero (suc rounds) (suc a) b p q = elim p [ ]
  spare_rounds (suc bound) (suc rounds) (suc a) b p q =
      let long = spare_rounds bound rounds (suc a / 2) (b / 2) (omega arith) (omega arith) in
      let short = spare_rounds bound a (suc a / 2) (b / 2) (omega arith) (omega arith) in
      ap (join (suc a) b) (long ∙ sym short)

  lowest_digit :
      (a b : ℕ)
      → bitwise rest combine (suc a) b ≡ join (suc a) b (bitwise rest combine (suc a / 2) (b / 2))
  lowest_digit a b =
      ap (join (suc a) b) (spare_rounds a a (suc a / 2) (b / 2) (omega arith) (omega arith))

-- Each operation, from its lowest digit.
pub bit_and_step : (x y : ℕ) → bit_and x y ≡ bit_and (x / 2) (y / 2) * 2 + min (x % 2) (y % 2)
bit_and_step (suc x) y =
    rw (bit_and-bitwise (suc x) y, bit_and-bitwise (suc x / 2) (y / 2))
      (lowest_digit (λ _. 0) min x y)
bit_and_step zero y = omega (arith, bit_and-bitwise 0 y, bit_and-bitwise 0 (y / 2))

pub bit_or_step : (x y : ℕ) → bit_or x y ≡ bit_or (x / 2) (y / 2) * 2 + max (x % 2) (y % 2)
bit_or_step (suc x) y =
    rw (bit_or-bitwise (suc x) y, bit_or-bitwise (suc x / 2) (y / 2))
      (lowest_digit (λ d. d) max x y)
bit_or_step zero y = omega (arith, bit_or-bitwise 0 y, bit_or-bitwise 0 (y / 2))

pub bit_xor_step : (x y : ℕ) → bit_xor x y ≡ bit_xor (x / 2) (y / 2) * 2 + differ (x % 2) (y % 2)
bit_xor_step (suc x) y =
    rw (bit_xor-bitwise (suc x) y, bit_xor-bitwise (suc x / 2) (y / 2))
      (lowest_digit (λ d. d) differ x y)
bit_xor_step zero y = omega (arith, bit_xor-bitwise 0 y, bit_xor-bitwise 0 (y / 2))

and_nothing : (x : ℕ) → bit_and x 0 ≡ 0
and_nothing x = WellFounded.induction lt_wf {C = λ n. bit_and n 0 ≡ 0} x halve
  where
    halve : (n : ℕ) → ((m : ℕ) → suc m ≤ n → bit_and m 0 ≡ 0) → bit_and n 0 ≡ 0
    halve zero ih = refl
    halve (suc n) ih = omega (arith, bit_and_step (suc n) 0, ih (suc n / 2) (omega arith))

-- A mask of one bit is the remainder by 2.
pub bit_and-one : (x : ℕ) → bit_and x 1 ≡ x % 2
bit_and-one x = omega (arith, and_nothing (x / 2), bit_and_step x 1)
