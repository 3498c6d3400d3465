-- ===== src/Simulator/Timeline.antt =====
-- `rewind` and `runHalfCycle` of src/simulator/interpret.cpp, one behind the other.
use coreir.Base.{
  ℕ, zero, suc, ◌+◌, ◌-◌, ◌<◌, ◌≤◌, ◌≡◌, refl, ap, ◌∙◌, true, false, some, ◌==◌, arith, le→leb,
}
use coreir.Base.Int.{pos}
use coreir.Simulator.Vertices.{Circuit}
use coreir.Simulator.History.{SimulatorState, num_circ_states, rewind, run_half_cycles}
use coreir.Simulator.Rounds.{advance, run_later}
use coreir.Simulator.Bounds.{InBounds}

forward :
    (m : Circuit) (k : ℕ) (s : SimulatorState)
    → s.state_index + k < num_circ_states s
    → run_half_cycles m k s ≡ some (record s { state_index = s.state_index + k })
unfolding run_half_cycles
forward m zero s h = ap (λ i. some (record s { state_index = i })) (omega arith)
forward m (suc k) s h = rw (run_later m s (inside s.state_index (num_circ_states s) k h)) (
    forward m k (advance s) (omega (arith, h))
    ∙ ap (λ i. some (record s { state_index = i })) (omega arith))
  where
    inside : (i n k : ℕ) → i + suc k < n → (suc i == n) ≡ false
    inside i n k h = ground (arith, h)

-- With its index in range, a simulator that is rewound by at most its index, and then run as many
-- half cycles, is in its old state: nothing is computed again.
pub run_half_cycles-rewind :
    (m : Circuit) (k : ℕ) (s : SimulatorState)
    → InBounds s
    → k ≤ s.state_index
    → ((rewind (pos k) s).0 ≡ true) × (run_half_cycles m k (rewind (pos k) s).1 ≡ some s)
unfolding rewind
run_half_cycles-rewind m k s b h = rw (le→leb k s.state_index h) (
  refl,
  forward m k (record s { state_index = s.state_index - k }) (omega (arith, b, h))
      ∙ ap (λ i. some (record s { state_index = i })) (back k s.state_index h),
)
  where
    back : (k i : ℕ) → k ≤ i → i - k + k ≡ i
    back k i h = omega arith
