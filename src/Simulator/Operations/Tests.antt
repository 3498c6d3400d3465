-- ===== src/Simulator/Operations/Tests.antt =====
-- The operations at concrete vectors.
use coreir.Base.{◌≡◌, refl, some}
use coreir.BitVec.Words.{word}
use coreir.Simulator.Operations.{
  binary_op, unary_op, mux_bits, op_slt, op_slice, op_zext, op_lut, op_andr,
}
use coreir.Simulator.Operations.Meaning.{meaning, binary_op-word}
use coreir.Simulator.Operations.Unary.{unary_meaning, unary_op-word}

sliced : unary_op (op_slice 1 3) (word 4 10) ≡ some (word 2 1)
unfolding unary_op coreir.BitVec.to_type coreir.BitVec.from_int
sliced = refl

extended : unary_op (op_zext 2 4) (word 2 3) ≡ some (word 4 3)
unfolding unary_op coreir.BitVec.to_type coreir.BitVec.from_int
extended = refl

looked_up : unary_op (op_lut 2 (word 4 8)) (word 2 3) ≡ some (word 1 1)
unfolding unary_op coreir.BitVec.to_type coreir.BitVec.from_int
looked_up = refl

all_set : unary_op op_andr (word 3 7) ≡ some (word 1 1)
unfolding unary_op coreir.BitVec.to_type coreir.BitVec.from_int
all_set = refl

second_chosen : mux_bits (word 4 1) (word 4 2) (word 1 1) ≡ some (word 4 2)
unfolding mux_bits coreir.BitVec.from_int coreir.BitVec.equals coreir.Quad.eq
second_chosen = refl

-- -1 is below 1.
binary_op-word_example : binary_op op_slt (word 4 15) (word 4 1) ≡ some (meaning op_slt 3 15 1)
binary_op-word_example = binary_op-word op_slt 3 15 1 refl

unary_op-word_example :
    unary_op (op_slice 1 3) (word 4 10) ≡ some (unary_meaning (op_slice 1 3) 4 10)
unary_op-word_example = unary_op-word (op_slice 1 3) 4 10 refl
