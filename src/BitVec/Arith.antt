-- ===== src/BitVec/Arith.antt =====
-- Arithmetic on vectors of any width: `add_general_width_bv`, `sub_general_width_bv`,
-- `mul_general_width_bv` and `negate_general_width_bv`.
pub mod Add
pub mod Sub
pub mod Mul
use coreir.Base.{
  ℕ, zero, suc, ◌+◌, ◌-◌, ◌*◌, Bool, true, false, Option, none, some, ◌>>=◌, ltb, leb,
  if◌then◌else◌, for_up, bit_and,
}
use coreir.Quad.{QuadValue, low, high, is_binary, binary_value, quad_value}
use coreir.Quad
use coreir.BitVec.{
  QuadValueBitVector, bit_length, zeros, get, set_value, set_int, fill_step, unknown_bv, from_int,
}

-- The sum of one column. An operand digit that is not binary makes the whole result unknown.
unfoldable pub add_loop :
    (a b : QuadValueBitVector) (rounds start carry : ℕ) (res : QuadValueBitVector)
    → Option QuadValueBitVector
unfolding get set_value
add_loop a b zero i carry res = some res
add_loop a b (suc k) i carry res = do
  p ← get a i
  elim (is_binary p) [
    | false ↦ unknown_bv (bit_length a)
    | true ↦ do
      q ← get b i
      elim (is_binary q) [
        | false ↦ unknown_bv (bit_length a)
        | true ↦ do
          x ← binary_value p
          y ← binary_value q
          z ← quad_value (bit_and (x + y + carry) 1)
          res' ← set_value res i z
          add_loop a b k (suc i) (if leb 2 (x + y + carry) then 1 else 0) res'
      ]
  ]

unfoldable pub add_general_width_bv :
    QuadValueBitVector → QuadValueBitVector → Option QuadValueBitVector
unfolding add_loop zeros
add_general_width_bv a b = add_loop a b (bit_length a) 0 0 (zeros (bit_length a))

-- `m && n` on tests that may abort: `n` is not evaluated when `m` is false.
abbrev pub and_also : Option Bool → Option Bool → Option Bool
and_also m n = m >>= λ b. if b then n else some false

-- The inner loop `while ((j < Width) && (a_cpy.get(j) != 1))`; the rounds are `Width - j`.
unfoldable pub borrow_loop : (rounds j : ℕ) → QuadValueBitVector → Option (QuadValueBitVector × ℕ)
unfolding get set_int Quad.ne
borrow_loop zero j a_cpy = some (a_cpy, j)
borrow_loop (suc k) j a_cpy = do
  p ← get a_cpy j
  t ← Quad.ne p high
  elim t [ true ↦ do a' ← set_int a_cpy j 1; borrow_loop k (suc j) a' | false ↦ some (a_cpy, j) ]

-- The borrow from above bit `i`, where `k` bits lie above it.
unfoldable pub borrow : (width k i : ℕ) → QuadValueBitVector → Option QuadValueBitVector
unfolding borrow_loop
borrow width k i a_cpy = do
  (a', j) ← borrow_loop k (suc i) a_cpy
  if leb width j then some a' else set_int a' j 0

unfoldable pub sub_loop :
    (width : ℕ) (b : QuadValueBitVector) (rounds start : ℕ) (diff a_cpy : QuadValueBitVector)
    → Option QuadValueBitVector
unfolding borrow get set_int Quad.eq
sub_loop width b zero i diff a_cpy = some diff
sub_loop width b (suc k) i diff a_cpy = do
  p ← get a_cpy i
  borrows ← and_also (Quad.eq p low) (do q ← get b i; Quad.eq q high)
  elim borrows [
    | true ↦ do
      diff' ← set_int diff i 1
      a' ← borrow width k i a_cpy
      sub_loop width b k (suc i) diff' a'
    | false ↦ do
      q ← get b i
      same ← Quad.eq p q
      elim same [
        | true ↦ do diff' ← set_int diff i 0; sub_loop width b k (suc i) diff' a_cpy
        | false ↦ do
          one_less ← and_also (Quad.eq p high) (Quad.eq q low)
          elim one_less [
            | true ↦ do diff' ← set_int diff i 1; sub_loop width b k (suc i) diff' a_cpy
            | false ↦ unknown_bv width
          ]
      ]
  ]

unfoldable pub sub_general_width_bv :
    QuadValueBitVector → QuadValueBitVector → Option QuadValueBitVector
unfolding sub_loop zeros
sub_general_width_bv a b = sub_loop (bit_length a) b (bit_length a) 0 (zeros (bit_length a)) a

-- `shifted_a`: the digits of `a` behind `i` zeros, in twice the width.
unfoldable pub shifted : QuadValueBitVector → ℕ → Option QuadValueBitVector
unfolding for_up get set_value zeros
shifted a i = for_up (fill_step (λ j. j + i) (get a)) (bit_length a) 0 (zeros (2 * bit_length a))

abbrev pub mul_step :
    QuadValueBitVector → QuadValueBitVector → ℕ → QuadValueBitVector → Option QuadValueBitVector
mul_step a b i full_len = do
  q ← get b i
  t ← Quad.eq q high
  elim t [
    | true ↦ do shifted_a ← shifted a i; add_general_width_bv full_len shifted_a
    | false ↦ some full_len
  ]

unfoldable pub mul_general_width_bv :
    QuadValueBitVector → QuadValueBitVector → Option QuadValueBitVector
unfolding for_up zeros get set_value shifted add_general_width_bv Quad.eq
mul_general_width_bv a b = do
  full_len ← for_up (mul_step a b) (bit_length a) 0 (zeros (2 * bit_length a))
  for_up (fill_step (λ i. i) (get full_len)) (bit_length a) 0 (zeros (bit_length a))

unfoldable pub negate_general_width_bv : QuadValueBitVector → Option QuadValueBitVector
unfolding from_int sub_general_width_bv
negate_general_width_bv a = do
  zero_vector ← from_int (bit_length a) 0
  sub_general_width_bv zero_vector a
