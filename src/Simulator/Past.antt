-- ===== src/Simulator/Past.antt =====
-- A half cycle of src/simulator/interpret.cpp, and the states before it.
use coreir.Base.{
  some_eq, ℕ, suc, ◌≡◌, sym, ap, ap₂, ◌∙◌, true, false, some, List, [], ◌∷◌, ◌++◌, ◌>>=◌, guard,
  ◌==◌, get_elem?, set, length, member, arith, >>=-eq-some, get_elem?_here, set_here,
}
use coreir.Simulator.State.{
  port, SimValue, sim_bits, sim_clock, ClockValue, CircuitState, get_value, to_clock, put_value,
  flip_clock,
}
use coreir.Simulator.Vertices.{Circuit, exe_combinational, exe_sequential}
use coreir.Simulator.Frame.{all_writes}
use coreir.Simulator.Kept.{exe_combinational-Keeps, exe_sequential-Keeps}
use coreir.Simulator.Rounds.{run_last}
use coreir.Simulator.History.{
  SimulatorState, present, at_last_state, unset_inputs, copy_clock, execute_copy, execute,
  step_clock, run_half_cycle,
}

-- The value of the clock at the wire `a` of a state.
abbrev pub Shows : ℕ → CircuitState → List ClockValue → ClockValue → Type 0
Shows a c clocks clk =
    (k : ℕ) × (c.val_map a ≡ some (sim_clock k)) × (get_elem? clocks k ≡ some clk)

-- One state is added behind those of the past, and one clock, which is the old one flipped. The
-- other clocks, to which the states of the past point, are as they were.
pub record Ticks (a : ℕ) (s t : SimulatorState) : Type 0 where
  pub before : CircuitState
  pub clk : ClockValue
  pub after : CircuitState
  pub was_present : present s ≡ some before
  pub shown : Shows a before s.clocks clk
  pub states : t.circ_states ≡ s.circ_states ++ after ∷ []
  pub clocks : t.clocks ≡ s.clocks ++ flip_clock clk ∷ []
  pub moved : t.state_index ≡ suc s.state_index
  pub shown_after : after.val_map a ≡ some (sim_clock (length s.clocks))

module _ (m : Circuit) (a : ℕ) (main : m.main_clock ≡ some (port a))
    (off_verts : member a (all_writes m.verts) ≡ false)
    (off_order : member a (all_writes m.topo_order) ≡ false) where
  -- The new state before its clock is flipped.
  record Copies (s : SimulatorState) (c : CircuitState) (t : SimulatorState) : Type 0 where
    copied : ClockValue
    newest : CircuitState
    shown : Shows a c s.clocks copied
    states : t.circ_states ≡ s.circ_states ++ newest ∷ []
    clocks : t.clocks ≡ s.clocks ++ copied ∷ []
    moved : t.state_index ≡ suc s.state_index
    shown_newest : newest.val_map a ≡ some (sim_clock (length s.clocks))

  put_there : (v : SimValue) (c : CircuitState) → (put_value a v c).val_map a ≡ some v
  unfolding put_value
  put_there v c = ground arith

  copy_main :
      (clocks clocks' : List ClockValue) (c c' : CircuitState)
      → copy_clock m.main_clock clocks c ≡ some (clocks', c')
      → (clk : ClockValue) × Shows a c clocks clk
        × (clocks' ≡ clocks ++ clk ∷ [])
        × (c'.val_map a ≡ some (sim_clock (length clocks)))
  unfolding copy_clock get_value
  copy_main clocks clocks' c c' e =
      let e0 : copy_clock (some (port a)) clocks c ≡ some (clocks', c') =
        sym (ap (λ o. copy_clock o clocks c) main) ∙ e in
      let (k, seen, e1) = >>=-eq-some (get_value (port a) c >>= to_clock) _ e0 in
      let (v, read, is_clock) = >>=-eq-some (c.val_map a) to_clock seen in
      let (clk, found, e2) = >>=-eq-some (get_elem? clocks k) _ e1 in
      let v' = sim_clock (length clocks) in
      let pair : (clocks ++ clk ∷ [], put_value a v' c) ≡ (clocks', c') = some_eq e2 in
      (
        clk,
        (k, read ∙ ap (λ x. some x) (clock_at v k is_clock), found),
        sym (ap (λ x. x.0) pair),
        ap (λ x. x.1.val_map a) (sym pair) ∙ put_there v' c,
      )
    where
      clock_at : (v : SimValue) (k : ℕ) → to_clock v ≡ some k → v ≡ sim_clock k
      clock_at (sim_clock j) k e = ap sim_clock (cc e)
      clock_at (sim_bits bv) k e = cc e

  execute_copy-Copies :
      (c : CircuitState) (s t : SimulatorState) → execute_copy m [] c s ≡ some t → Copies s c t
  unfolding execute_copy
  execute_copy-Copies c s t e =
      let ((clocks', c0), copied, e1) = >>=-eq-some (copy_clock m.main_clock s.clocks c) _ e in
      let (c1, first, e2) = >>=-eq-some (exe_combinational m c0) _ e1 in
      let (c2, second, e3) = >>=-eq-some (exe_sequential m clocks' c1) _ e2 in
      let (c3, third, e4) = >>=-eq-some (exe_combinational m c2) _ e3 in
      let (clk, shows, same, there) = copy_main s.clocks clocks' c c0 copied in
      let done = some_eq e4 in
      record {
        copied = clk;
        newest = c3;
        shown = shows;
        states = ap (λ (u : SimulatorState). u.circ_states) (sym done);
        clocks = ap (λ (u : SimulatorState). u.clocks) (sym done) ∙ same;
        moved = ap (λ (u : SimulatorState). u.state_index) (sym done);
        shown_newest =
            exe_combinational-Keeps a m off_verts off_order c2 c3 third
            ∙ exe_sequential-Keeps a m off_verts off_order clocks' c1 c2 second
            ∙ exe_combinational-Keeps a m off_verts off_order c0 c1 first
            ∙ there;
      }

  -- The clock that `step_clock` flips is the copy.
  step_clock-Ticks :
      (s u t : SimulatorState) (c : CircuitState)
      → at_last_state s ≡ true
      → present s ≡ some c
      → Copies s c u
      → step_clock (port a) u ≡ some t
      → Ticks a s t
  unfolding step_clock get_value
  step_clock-Ticks s u t c last there copies e =
      let (d, now, e1) = >>=-eq-some (present u) _ e in
      let (k, seen, e2) = >>=-eq-some (get_value (port a) d >>= to_clock) _ e1 in
      let (clk, found, e3) = >>=-eq-some (get_elem? u.clocks k) _ e2 in
      let done = some_eq e3 in
      let at_end : u.state_index ≡ length s.circ_states =
        copies.moved ∙ ends s.state_index (length s.circ_states) last in
      let is_newest : copies.newest ≡ d = some_eq (
        sym (get_elem?_here s.circ_states copies.newest [])
        ∙ ap₂ (λ cs i. get_elem? cs i) (sym copies.states) (sym at_end)
        ∙ now) in
      let is_copy : length s.clocks ≡ k = some_eq (
        sym (
          ap (λ o. o >>= to_clock)
            (ap (λ (x : CircuitState). x.val_map a) (sym is_newest) ∙ copies.shown_newest))
        ∙ seen) in
      let is_clk : copies.copied ≡ clk = some_eq (
        sym (get_elem?_here s.clocks copies.copied [])
        ∙ ap₂ (λ cs i. get_elem? cs i) (sym copies.clocks) is_copy
        ∙ found) in
      record {
        before = c;
        clk = copies.copied;
        after = copies.newest;
        was_present = there;
        shown = copies.shown;
        states = ap (λ (x : SimulatorState). x.circ_states) (sym done) ∙ copies.states;
        clocks =
            ap (λ (x : SimulatorState). x.clocks) (sym done)
            ∙ ap (λ x. set u.clocks k (flip_clock x)) (sym is_clk)
            ∙ ap₂ (λ cs i. set cs i (flip_clock copies.copied)) copies.clocks (sym is_copy)
            ∙ set_here s.clocks copies.copied [] (flip_clock copies.copied);
        moved = ap (λ (x : SimulatorState). x.state_index) (sym done) ∙ copies.moved;
        shown_after = copies.shown_newest;
      }
    where
      ends : (i n : ℕ) → (suc i == n) ≡ true → suc i ≡ n
      ends i n h = ground arith

-- The main clock is a port of the circuit that no vertex drives, and all inputs are set. Then a half
-- cycle that is computed adds one state and one clock: the states of the past stay as they were, and
-- so do the clocks that they show, and the new state shows the main clock flipped.
pub run_half_cycle-Ticks :
    (m : Circuit) (a : ℕ) (s t : SimulatorState) (c : CircuitState)
    → m.main_clock ≡ some (port a)
    → member a (all_writes m.verts) ≡ false
    → member a (all_writes m.topo_order) ≡ false
    → at_last_state s ≡ true
    → present s ≡ some c
    → unset_inputs m.verts c ≡ []
    → run_half_cycle m s ≡ some t
    → Ticks a s t
unfolding execute
run_half_cycle-Ticks m a s t c main off_verts off_order last there all_set h =
    let (u, executed, h1) = >>=-eq-some (execute m s) _ (sym (run_last m s last) ∙ h) in
    let (clk_sel, is_main, h2) = >>=-eq-some m.main_clock _ h1 in
    let (g, tested, e1) = >>=-eq-some (guard (at_last_state s)) _ executed in
    let (c', now, e2) = >>=-eq-some (present s) _ e1 in
    let same : c' ≡ c = some_eq (sym now ∙ there) in
    let e3 =
      sym (ap (λ us. execute_copy m us c s) all_set)
      ∙ ap (λ x. execute_copy m (unset_inputs m.verts x) x s) (sym same)
      ∙ e2 in
    let port_main : clk_sel ≡ port a = some_eq (sym is_main ∙ main) in
    step_clock-Ticks m a main off_verts off_order s u t c last there
      (execute_copy-Copies m a main off_verts off_order c s u e3)
      (ap (λ x. step_clock x u) (sym port_main) ∙ h2)
