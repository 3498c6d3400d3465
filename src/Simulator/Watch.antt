-- ===== src/Simulator/Watch.antt =====
-- `run` and `runBack` of src/simulator/interpret.cpp.
use coreir.Base.{
  ℕ, zero, suc, ◌-◌, ◌<◌, ◌≤◌, ◌≡◌, refl, sym, ap, ◌∙◌, true, false, none, some, leb, le→leb,
  lt→leb_false, Bool-cases, inl, inr, arith,
}
use coreir.Base.Int.{pos}
use coreir.Simulator.History.{SimulatorState, StopConditions, hit_watch_point, rewind, run_back}

abbrev back : ℕ → SimulatorState → SimulatorState
back k s = record s { state_index = s.state_index - k }

rewind-back : (k : ℕ) (s : SimulatorState) → k ≤ s.state_index → (rewind (pos k) s).1 ≡ back k s
unfolding rewind
rewind-back k s h = rw (le→leb k s.state_index h) refl

rewind_none : (s : SimulatorState) → (rewind (pos 0) s).1 ≡ s
rewind_none s = rewind-back 0 s (omega arith) ∙ ap (λ i. record s { state_index = i }) (omega arith)

rewind_more :
    (k : ℕ) (s : SimulatorState)
    → suc k ≤ s.state_index
    → (rewind (pos k) (rewind (pos 1) s).1).1 ≡ (rewind (pos (suc k)) s).1
rewind_more k s h =
    ap (λ x. (rewind (pos k) x).1) (rewind-back 1 s (omega (arith, h)))
    ∙ rewind-back k (back 1 s) (omega (arith, h))
    ∙ ap (λ i. record s { state_index = i }) (omega arith)
    ∙ sym (rewind-back (suc k) s h)

index_back :
    (s : SimulatorState) → 1 ≤ s.state_index → suc (rewind (pos 1) s).1.state_index ≡ s.state_index
index_back s h = omega (arith, h, ap (λ (x : SimulatorState). x.state_index) (rewind-back 1 s h))

-- Before the first state there is none.
rewind_first : (s : SimulatorState) → s.state_index < 1 → (rewind (pos 1) s).1 ≡ s
unfolding rewind
rewind_first s h = rw (lt→leb_false 1 s.state_index h) refl

run_back_hit :
    (points : StopConditions) (k : ℕ) (s : SimulatorState)
    → hit_watch_point points s ≡ some true
    → run_back points (suc k) s ≡ some s
unfolding run_back
run_back_hit points k s h = rw h refl

run_back_round :
    (points : StopConditions) (k : ℕ) (s : SimulatorState)
    → hit_watch_point points s ≡ some false
    → run_back points (suc k) s ≡ run_back points k (rewind (pos 1) s).1
unfolding run_back
run_back_round points k s h = rw h refl

run_back_out : (points : StopConditions) (s : SimulatorState) → run_back points 0 s ≡ none
unfolding run_back
run_back_out points s = refl

-- When a state of the past has a hit, and none between it and the present, `runBack` returns to it.
pub run_back_reaches :
    (points : StopConditions) (j : ℕ) (s : SimulatorState)
    → j ≤ s.state_index
    → hit_watch_point points (rewind (pos j) s).1 ≡ some true
    → ((k : ℕ) → k < j → hit_watch_point points (rewind (pos k) s).1 ≡ some false)
    → run_back points (suc j) s ≡ some (rewind (pos j) s).1
run_back_reaches points zero s low hit misses =
    run_back_hit points 0 s (sym (ap (hit_watch_point points) (rewind_none s)) ∙ hit)
    ∙ ap (λ x. some x) (sym (rewind_none s))
run_back_reaches points (suc j) s low hit misses =
    let more = rewind_more j s low in
    let now = sym (ap (hit_watch_point points) (rewind_none s)) ∙ misses 0 (omega arith) in
    run_back_round points (suc j) s now
    ∙ run_back_reaches points j (rewind (pos 1) s).1
        (omega (arith, low, index_back s (omega (arith, low))))
        (ap (hit_watch_point points) more ∙ hit)
        (λ k h.
          ap (hit_watch_point points) (rewind_more k s (omega (arith, h, low)))
          ∙ misses (suc k) (omega (arith, h)))
    ∙ ap (λ x. some x) more

-- When neither the present nor any state of the past has a hit, `runBack` does not end: no number of
-- rounds is enough.
pub run_back_never :
    (points : StopConditions) (s : SimulatorState)
    → ((k : ℕ) → k ≤ s.state_index → hit_watch_point points (rewind (pos k) s).1 ≡ some false)
    → (fuel : ℕ) → run_back points fuel s ≡ none
run_back_never points s misses zero = run_back_out points s
run_back_never points s misses (suc k) =
    run_back_round points k s
      (sym (ap (hit_watch_point points) (rewind_none s)) ∙ misses 0 (omega arith))
    ∙ elim (Bool-cases (leb 1 s.state_index)) [
      | inl more ↦
          let low : 1 ≤ s.state_index = ground (arith, more) in
          run_back_never points (rewind (pos 1) s).1
            (λ j h.
              let step : suc j ≤ s.state_index = omega (arith, h, index_back s low) in
              ap (hit_watch_point points) (rewind_more j s step) ∙ misses (suc j) step)
            k
      | inr first ↦
          ap (run_back points k) (rewind_first s (ground (arith, first)))
          ∙ run_back_never points s misses k
    ]
