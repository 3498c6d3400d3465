-- ===== src/BitVec/Tests.antt =====
-- Instances of the theorems about bit vectors at concrete inputs.
use coreir.Base.{◌≡◌, none, some, arith}
use coreir.BitVec.Words.{word}
use coreir.BitVec.Shift.{lshr, ashr}
use coreir.BitVec.Shift.Signed.{ashr-word}
use coreir.BitVec.Shift.Amounts.{lshr-word, lshr_out_of_bounds}
use coreir.BitVec.Divide.{unsigned_divide}
use coreir.BitVec.Divide.Quotient.{unsigned_divide-word}

unsigned_divide-word_example : unsigned_divide (word 8 201) (word 8 7) ≡ some (word 8 28)
unsigned_divide-word_example = unsigned_divide-word 8 201 7 (omega arith) (omega arith)

lshr-word_example : lshr (word 8 45) (word 4 3) ≡ some (word 8 5)
lshr-word_example = lshr-word 8 4 45 3 (omega arith) (omega arith) (omega arith) (omega arith)

-- -6 by two places.
ashr-word_example : ashr (word 4 10) (word 4 2) ≡ some (word 4 14)
ashr-word_example = ashr-word 3 4 10 2 (omega arith) (omega arith) (omega arith) (omega arith)

lshr_out_of_bounds_example : lshr (word 4 5) (word 4 6) ≡ none
lshr_out_of_bounds_example =
    lshr_out_of_bounds 4 4 5 6 (omega arith) (omega arith) (omega arith) (omega arith)
