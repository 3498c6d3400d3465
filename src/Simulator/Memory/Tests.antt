-- ===== src/Simulator/Memory/Tests.antt =====
-- A memory of three cells of four bits, with addresses of two bits.
use coreir.Base.{ℕ, ◌%◌, ◌^◌, ◌≡◌, refl, ◌&&◌, some, [], ◌>>=◌, ltb, ◌==◌, if◌then◌else◌, arith}
use coreir.BitVec.{bit_length}
use coreir.BitVec.Words.{word}
use coreir.Simulator.Memory.{SimMemory, set_addr, get_addr}
use coreir.Simulator.Memory.Access.{HasWidth, get_addr-set_addr, access_bounds, returns}

abbrev three_cells : SimMemory
three_cells = record { values = []; width = 4; depth = 3 }

stored_twice :
    (set_addr (word 2 1) (word 4 9) three_cells
      >>= set_addr (word 2 1) (word 4 6)
      >>= get_addr (word 2 1))
    ≡ some (word 4 6)
unfolding set_addr get_addr coreir.BitVec.is_binary_vector coreir.BitVec.equals coreir.Quad.eq
stored_twice = refl

not_stored : get_addr (word 2 2) three_cells ≡ some (word 4 0)
unfolding get_addr coreir.BitVec.from_int
not_stored = refl

get_addr-set_addr_example :
    (m : SimMemory) × (set_addr (word 2 1) (word 4 9) three_cells ≡ some m)
    × HasWidth 2 m.values
    × ((b : ℕ)
        → get_addr (word 2 b) m
          ≡ (if 1 % 2 ^ 2 == b % 2 ^ 2 then some (word 4 9) else get_addr (word 2 b) three_cells))
get_addr-set_addr_example =
    get_addr-set_addr 2 1 (word 4 9) three_cells (omega arith) tt refl (omega arith)

access_bounds_example :
    (returns (get_addr (word 2 3) three_cells) ≡ ltb (3 % 2 ^ 2) 3)
    × (returns (set_addr (word 2 3) (word 4 9) three_cells)
        ≡ (bit_length (word 4 9) == 4 && ltb (3 % 2 ^ 2) 3))
access_bounds_example = access_bounds 2 3 (word 4 9) three_cells (omega arith) tt
