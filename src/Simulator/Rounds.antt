-- ===== src/Simulator/Rounds.antt =====
-- The two cases of a half cycle.
use coreir.Base.{suc, ◌≡◌, ap, Bool, true, false, Option, some, ◌>>=◌}
use coreir.Simulator.Vertices.{Circuit}
use coreir.Simulator.History.{SimulatorState, at_last_state, step_clock, execute, run_half_cycle}

abbrev pub advance : SimulatorState → SimulatorState
advance s = record s { state_index = suc s.state_index }

abbrev by_last : Circuit → SimulatorState → Bool → Option SimulatorState
by_last m s b = elim b [
  | false ↦ some (advance s)
  | true ↦ execute m s >>= λ s'. m.main_clock >>= λ main. step_clock main s'
]

pub run_later :
    (m : Circuit) (s : SimulatorState)
    → at_last_state s ≡ false
    → run_half_cycle m s ≡ some (advance s)
unfolding run_half_cycle
run_later m s h = ap (by_last m s) h

pub run_last :
    (m : Circuit) (s : SimulatorState)
    → at_last_state s ≡ true
    → run_half_cycle m s ≡ (execute m s >>= λ s'. m.main_clock >>= λ main. step_clock main s')
unfolding run_half_cycle
run_last m s h = ap (by_last m s) h
