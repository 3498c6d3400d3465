-- ===== src/BitVec/Divide.antt =====
-- Function `unsigned_divide`: division by shifts and subtractions, from the highest bit.
pub mod Quotient
use coreir.Base.{ℕ, ◌*◌, Bool, true, false, Option, some, ◌>>=◌, ◌>>◌, guard, ◌==◌, for_down}
use coreir.Quad.{high}
use coreir.BitVec.{QuadValueBitVector, bit_length, set_value, from_int, equals}
use coreir.BitVec.Arith.{sub_general_width_bv}
use coreir.BitVec.Compare.{lt, or_else}
use coreir.BitVec.Shift.{shl, zero_extend}

-- The body of the loop, over the pair of `quotient` and `a_tmp`.
abbrev pub divide_step :
    QuadValueBitVector
    → ℕ
    → ℕ
    → QuadValueBitVector × QuadValueBitVector
    → Option (QuadValueBitVector × QuadValueBitVector)
divide_step ext_b n i (quotient, a_tmp) = do
  amount ← from_int n i
  shifted_b ← shl ext_b amount
  fits ← or_else (lt shifted_b a_tmp) (equals shifted_b a_tmp)
  elim fits [
    | true ↦ do
      quotient' ← set_value quotient i high
      rest ← sub_general_width_bv a_tmp shifted_b
      some (quotient', rest)
    | false ↦ some (quotient, a_tmp)
  ]

unfoldable pub unsigned_divide : QuadValueBitVector → QuadValueBitVector → Option QuadValueBitVector
unsigned_divide a b = do
  guard (bit_length a == bit_length b)
  ext_a ← zero_extend (2 * bit_length a) a
  ext_b ← zero_extend (2 * bit_length b) b
  quotient ← from_int (bit_length a) 0
  (quotient', rest) ← for_down (divide_step ext_b (bit_length b)) (bit_length a) 0 (quotient, ext_a)
  some quotient'
