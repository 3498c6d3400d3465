-- ===== src/Simulator/History.antt =====
-- Class `SimulatorState` of include/coreir/simulator/interpreter.h: the states of the past, the
-- index of the present one, and the clocks, with the operations of src/simulator/interpret.cpp that
-- change them. An `int` that must not be negative, as `stateIndex`, is a natural number.
use coreir.Base.{
  ℕ, zero, suc, ◌+◌, ◌-◌, Bool, true, false, Option, none, some, List, [], ◌∷◌, ◌++◌, ◌>>=◌, ◌>>◌,
  guard, leb, ◌==◌, if◌then◌else◌, length, get_elem?, set,
}
use coreir.Base.Int.{ℤ, pos, negsuc}
use coreir.BitVec.{QuadValueBitVector, equals}
use coreir.Simulator.State.{
  Select, address, sim_bits, sim_clock, ClockValue, new_clock, flip_clock, CircuitState, no_values,
  is_set, get_value, get_bit_vec, set_sim_value, put_value, to_clock, set_register, set_memory,
}
use coreir.Simulator.Vertices.{Vertex, graph_input, Circuit, exe_combinational, exe_sequential}

pub record SimulatorState : Type 0 where
  pub circ_states : List CircuitState
  pub state_index : ℕ
  pub clocks : List ClockValue

-- `initializeState` starts from one empty state.
abbrev pub initial : SimulatorState
initial = record { circ_states = no_values ∷ []; state_index = 0; clocks = [] }

abbrev pub num_circ_states : SimulatorState → ℕ
num_circ_states s = length s.circ_states

-- `circStates[stateIndex]`; out of range it is undefined behaviour.
abbrev pub present : SimulatorState → Option CircuitState
present s = get_elem? s.circ_states s.state_index

abbrev pub put_present : CircuitState → SimulatorState → SimulatorState
put_present c s = record s { circ_states = set s.circ_states s.state_index c }

abbrev pub at_last_state : SimulatorState → Bool
at_last_state s = suc s.state_index == num_circ_states s

-- `rewind`, with its answer.
unfoldable pub rewind : (half_cycles : ℤ) → SimulatorState → Bool × SimulatorState
rewind (pos k) s =
    if leb k s.state_index then (true, record s { state_index = s.state_index - k }) else (false, s)
rewind (negsuc k) s = (true, record s { state_index = s.state_index + suc k })

-- `circStates.resize`
unfoldable pub resize : (n : ℕ) → List CircuitState → List CircuitState
resize zero cs = []
resize (suc n) [] = no_values ∷ resize n []
resize (suc n) (c ∷ cs) = c ∷ resize n cs

-- The later states are dropped.
unfoldable pub drop_later : SimulatorState → SimulatorState
unfolding resize
drop_later s =
    let kept = resize (suc s.state_index) s.circ_states in
    if at_last_state s then s else record s { circ_states = kept; state_index = length kept - 1 }

-- `setValue(Select*, const BitVec&)`
unfoldable pub set_bits : Select → QuadValueBitVector → SimulatorState → Option SimulatorState
unfolding drop_later set_sim_value
set_bits sel bv s = do
  guard (at_last_state (drop_later s))
  c ← present (drop_later s)
  c' ← set_sim_value sel (sim_bits bv) c
  some (put_present c' (drop_later s))

-- `setClock`: a new clock; the later states stay.
unfoldable pub set_clock : Select → (clk_last clk : ℕ) → SimulatorState → Option SimulatorState
unfolding put_value
set_clock sel clk_last clk s = do
  c ← present s
  some (record s {
    circ_states =
        set s.circ_states s.state_index (put_value (address sel) (sim_clock (length s.clocks)) c);
    clocks = s.clocks ++ new_clock clk_last clk ∷ [];
  })

-- `stepClock`: the clock is changed in place.
unfoldable pub step_clock : Select → SimulatorState → Option SimulatorState
unfolding get_value flip_clock
step_clock sel s = do
  c ← present s
  k ← get_value sel c >>= to_clock
  clk ← get_elem? s.clocks k
  some (record s { clocks = set s.clocks k (flip_clock clk) })

-- `setRegister` and `setMemory` of the present state.
unfoldable pub write_register : ℕ → QuadValueBitVector → SimulatorState → Option SimulatorState
unfolding set_register
write_register name bits s = do c ← present s; some (put_present (set_register name bits c) s)

unfoldable pub write_memory :
    ℕ → (addr bits : QuadValueBitVector) → SimulatorState → Option SimulatorState
unfolding set_memory
write_memory name addr bits s = do
  c ← present s
  c' ← set_memory name addr bits c
  some (put_present c' s)

-- `unsetInputs`
unfoldable pub unset_inputs : List Vertex → CircuitState → List Select
unfolding is_set
unset_inputs [] c = []
unset_inputs (graph_input sel ∷ vds) c =
    let rest = unset_inputs vds c in if is_set sel c then rest else sel ∷ rest
unset_inputs (_ ∷ vds) c = unset_inputs vds c

-- The copy of the main clock that `execute` makes: the clocks, and the state with the copy.
unfoldable pub copy_clock :
    Option Select → List ClockValue → CircuitState → Option (List ClockValue × CircuitState)
unfolding get_value set_sim_value
copy_clock none clocks c = some (clocks, c)
copy_clock (some main) clocks c = do
  k ← get_value main c >>= to_clock
  clk ← get_elem? clocks k
  c' ← set_sim_value main (sim_clock (length clocks)) c
  some (clocks ++ clk ∷ [], c')

module _ (m : Circuit) where
  -- `execute` from the test of the inputs on: `next` is the copy of the last state. With an input
  -- that is not set, it returns at once.
  unfoldable pub execute_copy :
      (unset : List Select) (next : CircuitState) → SimulatorState → Option SimulatorState
  unfolding copy_clock exe_combinational exe_sequential
  execute_copy (sel ∷ sels) next s =
      some (record s { circ_states = s.circ_states ++ next ∷ []; state_index = suc s.state_index })
  execute_copy [] next s = do
    (clocks', c) ← copy_clock m.main_clock s.clocks next
    c1 ← exe_combinational m c
    c2 ← exe_sequential m clocks' c1
    c3 ← exe_combinational m c2
    some (record {
      circ_states = s.circ_states ++ c3 ∷ [];
      state_index = suc s.state_index;
      clocks = clocks';
    })

  unfoldable pub execute : SimulatorState → Option SimulatorState
  unfolding unset_inputs execute_copy
  execute s = do
    guard (at_last_state s)
    next ← present s
    execute_copy (unset_inputs m.verts next) next s

  -- `runHalfCycle`. With no main clock `stepClock` reads a null pointer.
  unfoldable pub run_half_cycle : SimulatorState → Option SimulatorState
  unfolding execute step_clock
  run_half_cycle s = elim (at_last_state s) [
    | false ↦ some (record s { state_index = suc s.state_index })
    | true ↦ do s' ← execute s; main ← m.main_clock; step_clock main s'
  ]

  unfoldable pub run_half_cycles : ℕ → SimulatorState → Option SimulatorState
  unfolding run_half_cycle
  run_half_cycles zero s = some s
  run_half_cycles (suc n) s = run_half_cycle s >>= run_half_cycles n

-- The watch points: a select and the value that it is waited for.
abbrev pub StopConditions : Type 0
StopConditions = List (Select × QuadValueBitVector)

-- `hitWatchPoint`, with the tests that `setWatchPoint` makes for selects that exist.
unfoldable pub stop_test : StopConditions → CircuitState → Option Bool
unfolding is_set get_bit_vec equals
stop_test [] c = some false
stop_test ((sel, bv) ∷ points) c = do
  hit ← elim (is_set sel c) [
    | true ↦ get_bit_vec sel c >>= λ bits. equals bits bv
    | false ↦ some false
  ]
  elim hit [ true ↦ some true | false ↦ stop_test points c ]

unfoldable pub hit_watch_point : StopConditions → SimulatorState → Option Bool
unfolding stop_test
hit_watch_point points s = present s >>= stop_test points

-- `run` and `runBack`, on fuel for the rounds.
unfoldable pub run : StopConditions → Circuit → (fuel : ℕ) → SimulatorState → Option SimulatorState
unfolding hit_watch_point run_half_cycle
run points m zero s = none
run points m (suc k) s = do
  hit ← hit_watch_point points s
  elim hit [ true ↦ some s | false ↦ run_half_cycle m s >>= run points m k ]

unfoldable pub run_back : StopConditions → (fuel : ℕ) → SimulatorState → Option SimulatorState
unfolding hit_watch_point rewind
run_back points zero s = none
run_back points (suc k) s = do
  hit ← hit_watch_point points s
  elim hit [ true ↦ some s | false ↦ run_back points k (rewind (pos 1) s).1 ]
