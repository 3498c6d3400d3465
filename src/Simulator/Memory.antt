-- ===== src/Simulator/Memory.antt =====
-- Class `SimMemory` of include/coreir/simulator/interpreter.h, with `getAddr` and `setAddr` of
-- src/simulator/interpret.cpp.
pub mod Access
mod Tests
use coreir.Base.{
  ℕ, Bool, true, false, not, ◌&&◌, Option, none, some, List, [], ◌∷◌, ◌>>=◌, ◌>>◌, guard, ltb, ◌==◌,
  if◌then◌else◌,
}
use coreir.BitVec.{QuadValueBitVector, bit_length, from_int, to_type}
use coreir.BitVec.Compare.{lt}

-- A `std::map<BitVec, BitVec>`, as the list of its entries.
abbrev pub Cells : Type 0
Cells = List (QuadValueBitVector × QuadValueBitVector)

pub record SimMemory : Type 0 where
  pub values : Cells
  pub width : ℕ
  pub depth : ℕ

-- Two keys are the same to the map if neither is below the other.
unfoldable pub same_cell : QuadValueBitVector → QuadValueBitVector → Option Bool
unfolding lt
same_cell a b = do below ← lt a b; above ← lt b a; some (not below && not above)

unfoldable pub find_addr : QuadValueBitVector → Cells → Option (Option QuadValueBitVector)
unfolding same_cell
find_addr a [] = some none
find_addr a ((k, v) ∷ vs) = do
  same ← same_cell a k
  elim same [ true ↦ some (some v) | false ↦ find_addr a vs ]

unfoldable pub erase_addr : QuadValueBitVector → Cells → Option Cells
unfolding same_cell
erase_addr a [] = some []
erase_addr a ((k, v) ∷ vs) = do
  same ← same_cell a k
  rest ← erase_addr a vs
  some (if same then rest else (k, v) ∷ rest)

unfoldable pub set_addr : (addr val : QuadValueBitVector) → SimMemory → Option SimMemory
unfolding erase_addr to_type
set_addr addr val m = do
  guard (bit_length val == m.width)
  a ← to_type 32 addr
  guard (ltb a m.depth)
  rest ← erase_addr addr m.values
  some (record m { values = (addr, val) ∷ rest })

unfoldable pub get_addr : QuadValueBitVector → SimMemory → Option QuadValueBitVector
unfolding find_addr to_type
get_addr bv m = do
  a ← to_type 32 bv
  guard (ltb a m.depth)
  found ← find_addr bv m.values
  elim found [ none ↦ from_int m.width 0 | some v ↦ some v ]
