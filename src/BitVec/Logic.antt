-- ===== src/BitVec/Logic.antt =====
-- Bitwise operations and reductions on vectors: class `quad_value_bit_vector_operations`, the
-- operators & | ^ ~ and the functions `andr`, `orr` and `xorr`.
pub mod Bitwise
pub mod Reduce
use coreir.Base.{
  ℕ, zero, suc, ◌+◌, ◌%◌, Bool, true, false, Option, none, some, [], ◌∷◌, ◌>>=◌, ◌==◌,
  if◌then◌else◌, for_up,
}
use coreir.Quad.{QuadValue, high}
use coreir.Quad
use coreir.BitVec.{QuadValueBitVector, bit_length, zeros, get, set_value, fill_step, from_string}

-- The loop that `land`, `lor` and `lxor` share, over an operator on digits.
abbrev bitwise_loop :
    (QuadValue → QuadValue → Option QuadValue)
    → QuadValueBitVector
    → QuadValueBitVector
    → Option QuadValueBitVector
bitwise_loop op a b =
    for_up (fill_step (λ i. i) (λ i. do p ← get a i; q ← get b i; op p q)) (bit_length a) 0
      (zeros (bit_length a))

unfoldable pub land : QuadValueBitVector → QuadValueBitVector → Option QuadValueBitVector
land a b = bitwise_loop Quad.land a b

unfoldable pub lor : QuadValueBitVector → QuadValueBitVector → Option QuadValueBitVector
lor a b = bitwise_loop Quad.lor a b

unfoldable pub lxor : QuadValueBitVector → QuadValueBitVector → Option QuadValueBitVector
lxor a b = bitwise_loop Quad.lxor a b

unfoldable pub lnot : QuadValueBitVector → Option QuadValueBitVector
lnot a =
    for_up (fill_step (λ i. i) (λ i. do p ← get a i; Quad.lnot p)) (bit_length a) 0
      (zeros (bit_length a))

-- The vectors of one bit that the reductions return.
abbrev zero_bit : Option QuadValueBitVector
zero_bit = from_string 1 (b'0' ∷ [])

abbrev one_bit : Option QuadValueBitVector
one_bit = from_string 1 (b'1' ∷ [])

unfoldable pub andr_loop : QuadValueBitVector → (rounds start : ℕ) → Option QuadValueBitVector
unfolding get Quad.ne from_string
andr_loop a zero i = one_bit
andr_loop a (suc k) i = do
  p ← get a i
  t ← Quad.ne p high
  elim t [ true ↦ zero_bit | false ↦ andr_loop a k (suc i) ]

unfoldable pub andr : QuadValueBitVector → Option QuadValueBitVector
unfolding andr_loop
andr a = andr_loop a (bit_length a) 0

unfoldable pub orr_loop : QuadValueBitVector → (rounds start : ℕ) → Option QuadValueBitVector
unfolding get Quad.eq from_string
orr_loop a zero i = zero_bit
orr_loop a (suc k) i = do
  p ← get a i
  t ← Quad.eq p high
  elim t [ true ↦ one_bit | false ↦ orr_loop a k (suc i) ]

unfoldable pub orr : QuadValueBitVector → Option QuadValueBitVector
unfolding orr_loop
orr a = orr_loop a (bit_length a) 0

-- The loop of `xorr` counts the set bits.
abbrev pub count_step : QuadValueBitVector → ℕ → ℕ → Option ℕ
count_step a i num_set = do
  p ← get a i
  t ← Quad.eq p high
  some (if t then num_set + 1 else num_set)

unfoldable pub xorr : QuadValueBitVector → Option QuadValueBitVector
unfolding from_string
xorr a = do
  num_set ← for_up (count_step a) (bit_length a) 0 0
  if num_set % 2 == 0 then zero_bit else one_bit
