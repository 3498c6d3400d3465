-- ===== src/Simulator/State.antt =====
-- The state of one moment: class `CircuitState` of include/coreir/simulator/interpreter.h, with
-- `isSet`, `getValue`, `setValue`, and the registers and memories of src/simulator/interpret.cpp.
use coreir.Base.{
  ℕ, suc, Bool, true, false, ◌||◌, Option, none, some, ◌>>=◌, ◌>>◌, guard, ◌==◌, if◌then◌else◌,
}
use coreir.BitVec.{QuadValueBitVector, bit_length, zeros, get, set_value, from_int}
use coreir.Simulator.Memory.{SimMemory, set_addr, get_addr}

-- A `Select*` is a number. An element is a select whose text is a number: it has its parent, its
-- `selectNum` and the `arrayLen` of the parent.
pub data Select : Type 0 where
  port : ℕ → Select
  element : ℕ → (parent : Select) → (index arr_len : ℕ) → Select

abbrev pub address : Select → ℕ
address (port a) = a
address (element a parent index arr_len) = a

-- Classes `SimBitVector` and `ClockValue`. Only clocks change in place, so that a clock is its place
-- in the list of all clocks that were allocated.
pub data SimValue : Type 0 where
  sim_bits : QuadValueBitVector → SimValue
  sim_clock : ℕ → SimValue

pub record ClockValue : Type 0 where
  pub last_val : ℕ
  pub val : ℕ
  pub half_cycle_count : ℕ

abbrev pub new_clock : (last_val val : ℕ) → ClockValue
new_clock last_val val = record { last_val = last_val; val = val; half_cycle_count = 0 }

unfoldable pub flip_clock : ClockValue → ClockValue
flip_clock c = record {
  last_val = c.val;
  val = c.last_val;
  half_cycle_count = suc c.half_cycle_count;
}

-- A missing key is `none`. Instances have numbers in place of their names.
pub record CircuitState : Type 0 where
  pub val_map : ℕ → Option SimValue
  pub memories : ℕ → Option SimMemory
  pub registers : ℕ → Option QuadValueBitVector

abbrev pub no_values : CircuitState
no_values = record { val_map = λ a. none; memories = λ i. none; registers = λ i. none }

unfoldable pub put_value : ℕ → SimValue → CircuitState → CircuitState
put_value a v c = record c { val_map = λ b. if b == a then some v else c.val_map b }

abbrev pub to_sim_bit_vector : SimValue → Option QuadValueBitVector
to_sim_bit_vector (sim_bits bv) = some bv
to_sim_bit_vector (sim_clock k) = none

abbrev pub to_clock : SimValue → Option ℕ
to_clock (sim_bits bv) = none
to_clock (sim_clock k) = some k

abbrev pub has_value : Option SimValue → Bool
has_value none = false
has_value (some v) = true

unfoldable pub is_set : Select → CircuitState → Bool
is_set (port a) c = has_value (c.val_map a)
is_set (element a parent index arr_len) c = has_value (c.val_map a) || is_set parent c

-- `getValue(Select*)`: the bit of an array is read from the array. A cast of a clock to a vector is
-- undefined behaviour, `none`.
unfoldable pub get_value : Select → CircuitState → Option SimValue
unfolding get set_value
get_value (port a) c = c.val_map a
get_value (element a parent index arr_len) c = do
  val ← get_value parent c
  bits ← to_sim_bit_vector val
  bv ← from_int 1 0
  q ← get bits index
  res ← set_value bv 0 q
  some (sim_bits res)

unfoldable pub get_bit_vec : Select → CircuitState → Option QuadValueBitVector
unfolding get_value
get_bit_vec s c = get_value s c >>= to_sim_bit_vector

-- The array that a bit is put into.
unfoldable pub array_of : (parent : Select) (arr_len : ℕ) → CircuitState → Option QuadValueBitVector
unfolding is_set get_bit_vec zeros
array_of parent arr_len c = elim (is_set parent c) [
  | true ↦ get_bit_vec parent c
  | false ↦ some (zeros arr_len)
]

-- `setValue(Select*, SimValue*)`: a bit of an array is put into the array, too.
unfoldable pub set_sim_value : Select → SimValue → CircuitState → Option CircuitState
unfolding array_of get set_value put_value
set_sim_value (port a) val c = some (put_value a val c)
set_sim_value (element a parent index arr_len) val c = do
  bits ← to_sim_bit_vector val
  guard (bit_length bits == 1)
  old_bv ← array_of parent arr_len c
  q ← get bits 0
  new_bv ← set_value old_bv index q
  some (put_value a val (put_value (address parent) (sim_bits new_bv) c))

unfoldable pub set_register : ℕ → QuadValueBitVector → CircuitState → CircuitState
set_register name data_bits c = record c {
  registers = λ b. if b == name then some data_bits else c.registers b;
}

abbrev pub get_register : ℕ → CircuitState → Option QuadValueBitVector
get_register name c = c.registers name

-- `setMemory` does not test that the memory is there: a missing one is undefined behaviour.
unfoldable pub set_memory :
    ℕ → (addr data_bits : QuadValueBitVector) → CircuitState → Option CircuitState
unfolding set_addr
set_memory name addr data_bits c = do
  mem ← c.memories name
  mem' ← set_addr addr data_bits mem
  some (record c { memories = λ b. if b == name then some mem' else c.memories b })

unfoldable pub get_memory : ℕ → QuadValueBitVector → CircuitState → Option QuadValueBitVector
unfolding get_addr
get_memory name addr c = do mem ← c.memories name; get_addr addr mem
