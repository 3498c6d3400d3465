-- ===== src/Simulator/Operations.antt =====
-- What `updateNodeValues` of src/simulator/interpret.cpp computes for the operations of coreir and
-- corebit on bit vectors. Those on floats are left out.
pub mod Meaning
pub mod Unary
mod Tests
use coreir.Base.{
  ℕ, zero, suc, ◌+◌, ◌-◌, ◌^◌, Bool, true, false, not, Option, none, some, List, [], ◌∷◌, ◌>>=◌,
  ◌>>◌, guard, ltb, ◌==◌, if◌then◌else◌, for_up,
}
use coreir.Quad.{QuadValue, high, binary_value}
use coreir.Quad
use coreir.BitVec.{
  QuadValueBitVector, bit_length, zeros, get, set_value, fill_step, from_int, equals, not_equals,
}
use coreir.BitVec.Logic.{land, lor, lxor, lnot}
use coreir.BitVec.Arith.{
  add_general_width_bv, sub_general_width_bv, mul_general_width_bv, negate_general_width_bv,
}
use coreir.BitVec.Compare.{gt, lt, or_else, signed_gt, signed_gte}
use coreir.BitVec.Shift.{lshr, ashr, shl, get_shift_int}
use coreir.BitVec.Divide.{unsigned_divide}

-- The names that `updateNodeValues` passes to `updateBitVecBinop`.
pub data BinaryOp : Type 0 where
  op_and op_eq op_neq op_or op_xor op_add op_sub op_mul op_concat op_lshr op_ashr op_shl : BinaryOp
  op_ult op_ule op_ugt op_uge op_smax op_smin op_sgt op_sge op_udiv op_slt op_sle : BinaryOp

-- `BitVec(1, 1)` and `BitVec(1, 0)` behind a test.
abbrev pub truth : Option Bool → Option QuadValueBitVector
truth m = m >>= λ b. from_int 1 (if b then 1 else 0)

abbrev pub negated : Option Bool → Option Bool
negated m = m >>= λ b. some (not b)

abbrev pub choose : Option Bool → (l r : QuadValueBitVector) → Option QuadValueBitVector
choose m l r = m >>= λ b. some (if b then l else r)

-- `updateConcatNode`: the first argument has the low digits.
unfoldable pub concat_bits : (s0 s1 : QuadValueBitVector) → Option QuadValueBitVector
unfolding for_up zeros get set_value
concat_bits s0 s1 = do
  conc ←
      for_up (fill_step (λ i. i) (get s0)) (bit_length s0) 0 (zeros (bit_length s0 + bit_length s1))
  for_up (fill_step (λ i. i + bit_length s0) (get s1)) (bit_length s1) 0 conc

unfoldable pub binary_op : BinaryOp → (l r : QuadValueBitVector) → Option QuadValueBitVector
unfolding concat_bits
binary_op op_and l r = land l r
binary_op op_eq l r = truth (equals l r)
binary_op op_neq l r = truth (not_equals l r)
binary_op op_or l r = lor l r
binary_op op_xor l r = lxor l r
binary_op op_add l r = add_general_width_bv l r
binary_op op_sub l r = sub_general_width_bv l r
binary_op op_mul l r = mul_general_width_bv l r
binary_op op_concat l r = concat_bits l r
binary_op op_lshr l r = lshr l r
binary_op op_ashr l r = ashr l r
binary_op op_shl l r = shl l r
binary_op op_ult l r = truth (lt l r)
binary_op op_ule l r = truth (or_else (lt l r) (equals l r))
binary_op op_ugt l r = truth (gt l r)
binary_op op_uge l r = truth (or_else (gt l r) (equals l r))
binary_op op_smax l r = choose (or_else (signed_gt l r) (equals l r)) l r
binary_op op_smin l r = choose (or_else (signed_gt l r) (equals l r)) r l
binary_op op_sgt l r = truth (signed_gt l r)
binary_op op_sge l r = truth (signed_gte l r)
binary_op op_udiv l r = unsigned_divide l r
binary_op op_slt l r = truth (negated (signed_gte l r))
binary_op op_sle l r = truth (negated (signed_gt l r))

pub data UnaryOp : Type 0 where
  op_not op_neg op_wire op_andr op_orr : UnaryOp
  op_slice : (lo hi : ℕ) → UnaryOp
  op_zext : (width_in width_out : ℕ) → UnaryOp
  op_lut : (n : ℕ) (init : QuadValueBitVector) → UnaryOp

-- `updateAndrNode`
unfoldable pub andr_bits : QuadValueBitVector → (rounds start : ℕ) → Option QuadValueBitVector
unfolding get Quad.ne
andr_bits s zero i = from_int 1 1
andr_bits s (suc k) i = do
  q ← get s i
  t ← Quad.ne q high
  elim t [ true ↦ from_int 1 0 | false ↦ andr_bits s k (suc i) ]

-- `updateOrrNode`
unfoldable pub orr_bits : QuadValueBitVector → (rounds start : ℕ) → Option QuadValueBitVector
unfolding get Quad.eq
orr_bits s zero i = from_int 1 0
orr_bits s (suc k) i = do
  q ← get s i
  t ← Quad.eq q high
  elim t [ true ↦ from_int 1 1 | false ↦ orr_bits s k (suc i) ]

-- `updateSliceNode`: the difference is unsigned, so a `hi` below `lo` is refused by `resize`.
unfoldable pub slice_bits : (lo hi : ℕ) → QuadValueBitVector → Option QuadValueBitVector
unfolding for_up get set_value
slice_bits lo hi s = do
  guard (ltb lo hi)
  res ← from_int (hi - lo) 1
  for_up (fill_step (λ i. i - lo) (get s)) (hi - lo) lo res

-- `updateZextNode`
unfoldable pub zext_bits : (width_in width_out : ℕ) → QuadValueBitVector → Option QuadValueBitVector
unfolding for_up get set_value
zext_bits width_in width_out s = do
  guard (bit_length s == width_in)
  res ← from_int width_out 0
  for_up (fill_step (λ i. i) (get s)) width_in 0 res

-- `updateLUTNNode`
unfoldable pub lut_bit : (n : ℕ) → (init s : QuadValueBitVector) → Option QuadValueBitVector
unfolding get get_shift_int
lut_bit n init s = do
  guard (bit_length init == 2 ^ n)
  i ← get_shift_int s
  q ← get init i
  b ← binary_value q
  from_int 1 b

unfoldable pub unary_op : UnaryOp → QuadValueBitVector → Option QuadValueBitVector
unfolding andr_bits orr_bits slice_bits zext_bits lut_bit
unary_op op_not s = lnot s
unary_op op_neg s = negate_general_width_bv s
unary_op op_wire s = some s
unary_op op_andr s = andr_bits s (bit_length s) 0
unary_op op_orr s = orr_bits s (bit_length s) 0
unary_op (op_slice lo hi) s = slice_bits lo hi s
unary_op (op_zext width_in width_out) s = zext_bits width_in width_out s
unary_op (op_lut n init) s = lut_bit n init s

-- `updateMuxNode`: any selection but 0 takes the second argument.
unfoldable pub mux_bits : (in0 in1 selected : QuadValueBitVector) → Option QuadValueBitVector
mux_bits in0 in1 selected = do nothing ← from_int 1 0; choose (equals selected nothing) in0 in1
