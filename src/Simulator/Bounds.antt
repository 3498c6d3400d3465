-- ===== src/Simulator/Bounds.antt =====
-- `stateIndex` of class `SimulatorState` of include/coreir/simulator/interpreter.h.
use coreir.Base.{guard-true, ℕ, suc, ◌<◌, ◌≡◌, true, some, List, [], ◌∷◌, ◌++◌, guard, >>=-eq-some}
use coreir.Base.Int.{pos}
use coreir.BitVec.{QuadValueBitVector}
use coreir.Simulator.State.{Select, CircuitState}
use coreir.Simulator.Vertices.{Circuit, exe_combinational, exe_sequential}
use coreir.Simulator.History.{
  SimulatorState, num_circ_states, present, at_last_state, rewind, set_bits, set_clock, step_clock,
  write_register, write_memory, unset_inputs, copy_clock, execute_copy, execute, run_half_cycle,
}
use coreir.Simulator.Defaults.{Default, initialize_state}

abbrev pub InBounds : SimulatorState → Type 0
InBounds s = s.state_index < num_circ_states s

-- What `execute` adds: one state, which is the present one.
pub record Adds (s t : SimulatorState) : Type 0 where
  pub newest : CircuitState
  pub added : t.circ_states ≡ s.circ_states ++ newest ∷ []
  pub advanced : t.state_index ≡ suc s.state_index

execute_copy-Adds :
    (m : Circuit) (unset : List Select) (next : CircuitState) (s t : SimulatorState)
    → execute_copy m unset next s ≡ some t
    → Adds s t
unfolding execute_copy
execute_copy-Adds m (sel ∷ sels) next s t h = record {
  newest = next;
  added = cc h;
  advanced = cc h;
}
execute_copy-Adds m [] next s t h =
    let ((clocks, c), copied, h1) = >>=-eq-some (copy_clock m.main_clock s.clocks next) _ h in
    let (c1, first, h2) = >>=-eq-some (exe_combinational m c) _ h1 in
    let (c2, second, h3) = >>=-eq-some (exe_sequential m clocks c1) _ h2 in
    let (c3, third, h4) = >>=-eq-some (exe_combinational m c2) _ h3 in
    record { newest = c3; added = cc h4; advanced = cc h4 }

pub execute-Adds :
    (m : Circuit) (s t : SimulatorState)
    → execute m s ≡ some t
    → (at_last_state s ≡ true) × Adds s t
unfolding execute
execute-Adds m s t h =
    let (u, last, h1) = >>=-eq-some (guard (at_last_state s)) _ h in
    let (next, there, h2) = >>=-eq-some (present s) _ h1 in
    (guard-true _ last, execute_copy-Adds m (unset_inputs m.verts next) next s t h2)

-- The calls that change a simulator; time is rewound by no negative number.
pub data Step (m : Circuit) (s t : SimulatorState) : Type 0 where
  executes : execute m s ≡ some t → Step m s t
  runs : run_half_cycle m s ≡ some t → Step m s t
  rewinds : (k : ℕ) → (rewind (pos k) s).1 ≡ t → Step m s t
  steps_clock : (sel : Select) → step_clock sel s ≡ some t → Step m s t
  sets_clock :
      (sel : Select) (clk_last clk : ℕ) → set_clock sel clk_last clk s ≡ some t → Step m s t
  sets_bits : (sel : Select) (bv : QuadValueBitVector) → set_bits sel bv s ≡ some t → Step m s t
  writes_register :
      (name : ℕ) (bits : QuadValueBitVector) → write_register name bits s ≡ some t → Step m s t
  writes_memory :
      (name : ℕ) (addr bits : QuadValueBitVector)
      → write_memory name addr bits s ≡ some t
      → Step m s t

pub data Reach (m : Circuit) : SimulatorState → Type 0 where
  starts : (vds : List Default) {s : SimulatorState} → initialize_state vds ≡ some s → Reach m s
  calls : {s t : SimulatorState} → Reach m s → Step m s t → Reach m t
