-- ===== src/Simulator/Defaults.antt =====
-- What `initializeState` of src/simulator/interpret.cpp puts into the first state:
-- `setConstantDefaults`, `setMemoryDefaults`, `setRegisterDefaults`, `setDFFDefaults` and
-- `setNodeDefaults`. `setInputDefaults` is empty, and plugins are left out.
use coreir.Base.{
  ℕ, zero, suc, ◌^◌, Option, none, some, List, [], ◌∷◌, ◌>>=◌, ◌>>◌, guard, leb, ◌==◌, length, true,
  false, if◌then◌else◌,
}
use coreir.BitVec.{QuadValueBitVector, bit_length, from_int}
use coreir.Simulator.Memory.{SimMemory, set_addr}
use coreir.Simulator.State.{Select, sim_bits, CircuitState, no_values, set_sim_value, set_register}
use coreir.Simulator.History.{SimulatorState, initial}

-- The instance of a vertex with its arguments: `init` of a memory has the 32-bit patterns of its
-- integers, and `width` of a register is its argument.
pub data Default : Type 0 where
  const_default : (out : Select) → (value : QuadValueBitVector) → Default
  mem_default : (name width depth : ℕ) → (init : Option (List ℕ)) → (rdata raddr : Select) → Default
  reg_default : (name width : ℕ) → (init : QuadValueBitVector) → (out : Select) → Default
  dff_default : (name : ℕ) → (init : ℕ) → (out : Select) → Default
  slice_default : (out : Select) → (width : ℕ) → Default
  no_default : Default

-- `ceil(log2(depth))`, for a depth above 0.
unfoldable pub ceil_log2 : (rounds k depth : ℕ) → ℕ
ceil_log2 zero k depth = k
ceil_log2 (suc r) k depth = elim (leb depth (2 ^ k)) [
  | true ↦ k
  | false ↦ ceil_log2 r (suc k) depth
]

-- The loop over the values of `init`, from the address `num_vals` on.
unfoldable pub store_values : (addr_width num_vals : ℕ) → List ℕ → SimMemory → Option SimMemory
unfolding set_addr from_int
store_values addr_width num_vals [] m = some m
store_values addr_width num_vals (v ∷ vals) m = do
  addr_bv ← from_int addr_width num_vals
  value_bv ← from_int m.width v
  m' ← set_addr addr_bv value_bv m
  store_values addr_width (suc num_vals) vals m'

unfoldable pub fresh_memory : (width depth : ℕ) → Option (List ℕ) → Option SimMemory
unfolding store_values ceil_log2
fresh_memory width depth none = some (record { values = []; width = width; depth = depth })
fresh_memory width depth (some vals) = do
  m ←
      store_values (ceil_log2 depth 0 depth) 0 vals
        (record { values = []; width = width; depth = depth })
  guard (length vals == depth)
  some m

-- `memories.insert` keeps the memory that is there.
unfoldable pub insert_memory : (name : ℕ) → SimMemory → CircuitState → CircuitState
insert_memory name m c = elim (c.memories name) [
  | some there ↦ c
  | none ↦ record c { memories = λ b. if b == name then some m else c.memories b }
]

unfoldable pub set_constant_default : Default → CircuitState → Option CircuitState
unfolding set_sim_value
set_constant_default (const_default out value) c = set_sim_value out (sim_bits value) c
set_constant_default _ c = some c

unfoldable pub set_memory_default : Default → CircuitState → Option CircuitState
unfolding fresh_memory insert_memory set_sim_value from_int ceil_log2
set_memory_default (mem_default name width depth init rdata raddr) c = do
  m ← fresh_memory width depth init
  no_data ← from_int width 0
  c' ← set_sim_value rdata (sim_bits no_data) (insert_memory name m c)
  no_addr ← from_int (ceil_log2 depth 0 depth) 0
  set_sim_value raddr (sim_bits no_addr) c'
set_memory_default _ c = some c

unfoldable pub set_register_default : Default → CircuitState → Option CircuitState
unfolding set_register set_sim_value
set_register_default (reg_default name width init out) c = do
  guard (bit_length init == width)
  set_sim_value out (sim_bits init) (set_register name init c)
set_register_default _ c = some c

unfoldable pub set_dff_default : Default → CircuitState → Option CircuitState
unfolding set_register set_sim_value from_int
set_dff_default (dff_default name init out) c = do
  bit ← from_int 1 init
  set_sim_value out (sim_bits bit) (set_register name bit c)
set_dff_default _ c = some c

unfoldable pub set_node_default : Default → CircuitState → Option CircuitState
unfolding set_sim_value from_int
set_node_default (slice_default out width) c = do
  nothing ← from_int width 0
  set_sim_value out (sim_bits nothing) c
set_node_default _ c = some c

unfoldable pub set_each :
    (Default → CircuitState → Option CircuitState)
    → List Default
    → CircuitState
    → Option CircuitState
set_each set_default [] c = some c
set_each set_default (vd ∷ vds) c = set_default vd c >>= set_each set_default vds

-- The state of a new simulator; the defaults are those of the vertices, in their order.
unfoldable pub initialize_state : List Default → Option SimulatorState
unfolding set_each set_constant_default set_memory_default set_register_default set_dff_default
    set_node_default
initialize_state vds = do
  c1 ← set_each set_constant_default vds no_values
  c2 ← set_each set_memory_default vds c1
  c3 ← set_each set_register_default vds c2
  c4 ← set_each set_dff_default vds c3
  c5 ← set_each set_node_default vds c4
  some (record initial { circ_states = c5 ∷ [] })
