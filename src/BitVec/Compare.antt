-- ===== src/BitVec/Compare.antt =====
-- Orders on vectors: the operators > >= < and the functions `signed_gt` and `signed_gte`.
pub mod Order
use coreir.Base.{
  ℕ, zero, suc, ◌+◌, ◌-◌, Bool, true, false, not, Option, none, some, ◌>>=◌, ◌>>◌, guard, ◌==◌,
  if◌then◌else◌,
}
use coreir.Quad.{QuadValue, low, high}
use coreir.Quad
use coreir.BitVec.{QuadValueBitVector, bit_length, get, is_binary_vector, equals, high_bit}
use coreir.BitVec.Arith.{and_also}

-- `for (i = rounds - 1; i >= 0; i--)`, with its two early returns.
unfoldable pub gt_loop : (a b : QuadValueBitVector) (rounds : ℕ) → Option Bool
unfolding get Quad.gt Quad.lt
gt_loop a b zero = some false
gt_loop a b (suc i) = do
  p ← get a i
  q ← get b i
  above ← Quad.gt p q
  below ← Quad.lt p q
  elim above [ true ↦ some true | false ↦ elim below [ true ↦ some false | false ↦ gt_loop a b i ] ]

-- `!a.is_binary() || !b.is_binary()` guards every comparison: it is false on unknown digits.
abbrev when_binary : QuadValueBitVector → QuadValueBitVector → Option Bool → Option Bool
when_binary a b m = and_also (is_binary_vector a) (and_also (is_binary_vector b) m)

-- operator>
unfoldable pub gt : QuadValueBitVector → QuadValueBitVector → Option Bool
gt a b = when_binary a b (gt_loop a b (bit_length a))

abbrev pub or_else : Option Bool → Option Bool → Option Bool
or_else m n = m >>= λ b. if b then some true else n

-- operator>=
unfoldable pub ge : QuadValueBitVector → QuadValueBitVector → Option Bool
ge a b = when_binary a b (or_else (gt a b) (equals a b))

-- operator<
unfoldable pub lt : QuadValueBitVector → QuadValueBitVector → Option Bool
lt a b =
    when_binary a b
      do e ← equals a b; elim e [ true ↦ some false | false ↦ gt a b >>= λ g. some (not g) ]

unfoldable pub signed_gt : QuadValueBitVector → QuadValueBitVector → Option Bool
unfolding high_bit Quad.eq
signed_gt a b = when_binary a b do
  guard (bit_length a == bit_length b)
  s ← high_bit a
  t ← high_bit b
  a_negative ← and_also (Quad.eq s high) (Quad.eq t low)
  b_negative ← and_also (Quad.eq t high) (Quad.eq s low)
  elim a_negative [
    | true ↦ some false
    | false ↦ elim b_negative [ true ↦ some true | false ↦ gt_loop a b (bit_length a - 1) ]
  ]

unfoldable pub signed_gte : QuadValueBitVector → QuadValueBitVector → Option Bool
signed_gte a b = or_else (signed_gt a b) (equals a b)
