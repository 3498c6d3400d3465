-- ===== src/BitVec/Shift.antt =====
-- Shifts, concatenation and changes of width: `get_shift_int`, `lshr`, `ashr`, `shl`, `concat`,
-- `slice`, `extend` and `zero_extend`.
pub mod Widths
pub mod Amounts
pub mod Signed
use coreir.Base.{
  ℕ, zero, suc, ◌+◌, ◌-◌, min, Bool, true, false, Option, none, some, ◌>>=◌, ◌>>◌, guard, ltb, leb,
  ◌==◌, if◌then◌else◌, for_up, for_down,
}
use coreir.Quad.{QuadValue, low}
use coreir.BitVec.{
  QuadValueBitVector, bit_length, zeros, get, set_value, fill_step, unknown_bv, from_int, to_type,
  is_binary_vector, equals, high_bit,
}
use coreir.BitVec.Arith.{and_also}

-- The unsigned type that a shift amount is read into.
abbrev shift_type : ℕ → ℕ
shift_type n = if ltb 32 n then 64 else if ltb 16 n then 32 else if ltb 8 n then 16 else 8

unfoldable pub get_shift_int : QuadValueBitVector → Option ℕ
get_shift_int shift_amount = do
  guard (leb (bit_length shift_amount) 64)
  shift_int ← to_type (shift_type (bit_length shift_amount)) shift_amount
  guard (ltb shift_int 65)
  some shift_int

-- All three shifts return an unknown vector when an operand is not binary.
abbrev when_binary :
    QuadValueBitVector → QuadValueBitVector → Option QuadValueBitVector → Option QuadValueBitVector
when_binary a s m = do
  t ← and_also (is_binary_vector a) (is_binary_vector s)
  elim t [ true ↦ m | false ↦ unknown_bv (bit_length a) ]

-- The second loop of `lshr`: `rounds` writes of 0 below the index `above`, going down. The loop has no
-- test against 0, as that of `ashr` has: a write at -1 is undefined behaviour, `none`.
unfoldable pub clear_down : (rounds above : ℕ) → QuadValueBitVector → Option QuadValueBitVector
clear_down zero above res = some res
clear_down (suc k) zero res = none
clear_down (suc k) (suc i) res = set_value res i low >>= clear_down k i

-- `lshr` by the amount `k`: by 0 it returns `a`.
unfoldable pub lshr_by : QuadValueBitVector → ℕ → Option QuadValueBitVector
unfolding clear_down
lshr_by a zero = some a
lshr_by a (suc k) = do
  res ←
      for_down (fill_step (λ i. i - suc k) (get a)) (bit_length a - suc k) (suc k)
        (zeros (bit_length a))
  clear_down (suc k) (bit_length a) res

unfoldable pub lshr : QuadValueBitVector → QuadValueBitVector → Option QuadValueBitVector
lshr a shift_amount = when_binary a shift_amount (get_shift_int shift_amount >>= lshr_by a)

-- The first loop of `ashr` counts down an unsigned index and ends because `k` is not 0 there.
unfoldable pub ashr : QuadValueBitVector → QuadValueBitVector → Option QuadValueBitVector
unfolding high_bit
ashr a shift_amount = when_binary a shift_amount do
  no_shift ← from_int (bit_length shift_amount) 0
  unshifted ← equals shift_amount no_shift
  elim unshifted [
    | true ↦ some a
    | false ↦ do
      k ← get_shift_int shift_amount
      sign_bit ← high_bit a
      res ← for_down (fill_step (λ i. i - k) (get a)) (bit_length a - k) k (zeros (bit_length a))
      for_down (fill_step (λ i. i) (λ i. some sign_bit)) (min k (bit_length a)) (bit_length a - k)
          res
  ]

unfoldable pub shl : QuadValueBitVector → QuadValueBitVector → Option QuadValueBitVector
shl a shift_amount = when_binary a shift_amount do
  k ← get_shift_int shift_amount
  for_up (fill_step (λ i. i) (λ i. get a (i - k))) (bit_length a - k) k (zeros (bit_length a))

-- `concat`: `a` has the low digits.
unfoldable pub concat : QuadValueBitVector → QuadValueBitVector → Option QuadValueBitVector
concat a b = do
  res ← for_up (fill_step (λ i. i) (get a)) (bit_length a) 0 (zeros (bit_length a + bit_length b))
  for_up (fill_step (λ i. i + bit_length a) (get b)) (bit_length b) 0 res

-- `slice`: a negative size is refused by `resize`.
unfoldable pub slice : QuadValueBitVector → ℕ → ℕ → Option QuadValueBitVector
slice a start end = do
  guard (leb start end)
  for_up (fill_step (λ i. i) (λ i. get a (i + start))) (end - start) 0 (zeros (end - start))

unfoldable pub extend : QuadValueBitVector → ℕ → Option QuadValueBitVector
extend a extra_bits =
    for_up (fill_step (λ i. i) (get a)) (bit_length a) 0 (zeros (bit_length a + extra_bits))

unfoldable pub zero_extend : ℕ → QuadValueBitVector → Option QuadValueBitVector
zero_extend out_width v = do
  res ← from_int out_width 0
  for_up (fill_step (λ i. i) (get v)) (bit_length v) 0 res
