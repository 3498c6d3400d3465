-- ===== src/Simulator/Tests.antt =====
-- An accumulator: a register of four bits, and an adder for the register and an input.
use coreir.Base.{
  ℕ, zero, suc, ◌≤◌, ◌<◌, ◌≡◌, refl, true, false, Option, none, some, List, [], ◌∷◌, ◌>>=◌,
  get_elem?, arith,
}
use coreir.Base.Int.{pos, negsuc}
use coreir.BitVec.{QuadValueBitVector}
use coreir.BitVec.Words.{word}
use coreir.Simulator.Operations.{op_add}
use coreir.Simulator.State.{
  Select, port, element, sim_bits, sim_clock, new_clock, CircuitState, no_values, put_value,
  set_register, get_register, set_sim_value, get_bit_vec, get_memory, to_clock,
}
use coreir.Simulator.Vertices.{
  Vertex, graph_input, graph_output, operation, register_source, register_receiver, binary, Circuit,
  exe_combinational,
}
use coreir.Simulator.History.{
  SimulatorState, initial, present, rewind, run_half_cycle, run_half_cycles, write_memory, run_back,
  unset_inputs, hit_watch_point, StopConditions,
}
use coreir.Simulator.Defaults.{Default, mem_default, initialize_state}
use coreir.Simulator.Timeline.{run_half_cycles-rewind}
use coreir.Simulator.Watch.{run_back_reaches, run_back_never}
use coreir.Simulator.Past.{Ticks, run_half_cycle-Ticks}
use coreir.Simulator.Settled.{AllSettled}
use coreir.Simulator.Shown.{AllShow, all_targets}
use coreir.Simulator.Pass.{exe_combinational-AllSettled}

abbrev clk_in : Vertex
clk_in = graph_input (port 0)

abbrev data_in : Vertex
data_in = graph_input (port 1)

abbrev adder : Vertex
adder =
    operation (binary op_add (port 3) (port 4)) ((port 1, port 3) ∷ (port 10, port 4) ∷ []) (port 5)

abbrev sum_out : Vertex
sum_out = graph_output ((port 5, port 6) ∷ [])

abbrev accumulator_out : Vertex
accumulator_out = register_source 0 (port 10)

abbrev accumulator_in : Vertex
accumulator_in =
    register_receiver 0 ((port 5, port 11) ∷ (port 0, port 12) ∷ []) (port 11) (port 12) none

abbrev accumulator : Circuit
accumulator = record {
  verts = accumulator_out ∷ accumulator_in ∷ clk_in ∷ data_in ∷ adder ∷ sum_out ∷ [];
  topo_order = clk_in ∷ data_in ∷ accumulator_out ∷ adder ∷ sum_out ∷ accumulator_in ∷ [];
  main_clock = some (port 0);
}

-- The input is 3 and the register 5, and the clock has just risen.
abbrev first_state : CircuitState
first_state =
    put_value 0 (sim_clock 0)
      (put_value 1 (sim_bits (word 4 3)) (set_register 0 (word 4 5) no_values))

abbrev ready : SimulatorState
ready = record { circ_states = first_state ∷ []; state_index = 0; clocks = new_clock 0 1 ∷ [] }

abbrev or_initial : Option SimulatorState → SimulatorState
or_initial none = initial
or_initial (some s) = s

abbrev or_empty : Option CircuitState → CircuitState
or_empty none = no_values
or_empty (some c) = c

unfoldable stepped : SimulatorState
unfolding run_half_cycle put_value set_register
stepped = or_initial (run_half_cycle accumulator ready)

steps : run_half_cycle accumulator ready ≡ some stepped
unfolding stepped coreir.BitVec.Arith.add_general_width_bv
steps = refl

-- The register has the sum behind the edge, and the output has the next sum.
stepped_register : (present stepped >>= get_register 0) ≡ some (word 4 8)
unfolding stepped run_half_cycle put_value set_register coreir.BitVec.Arith.add_general_width_bv
stepped_register = refl

stepped_output : (present stepped >>= get_bit_vec (port 6)) ≡ some (word 4 11)
unfolding stepped run_half_cycle put_value set_register get_bit_vec
    coreir.BitVec.Arith.add_general_width_bv
stepped_output = refl

-- A rewind by a negative number passes the test, and the index is behind the last state.
rewound_forward : (rewind (negsuc 0) initial).0 ≡ true
unfolding rewind
rewound_forward = refl

no_state_there : present (rewind (negsuc 0) initial).1 ≡ none
unfolding rewind
no_state_there = refl

-- With the input not set, the state is copied but not its clock: the clock is flipped in the state
-- of the past, too.
abbrev without_input : SimulatorState
without_input = record ready { circ_states = put_value 0 (sim_clock 0) no_values ∷ [] }

past_clock_flips :
    (run_half_cycle accumulator without_input >>= λ s.
    get_elem? s.circ_states 0 >>= λ c. c.val_map 0 >>= to_clock >>= get_elem? s.clocks)
    ≡ some (record { last_val = 1; val = 0; half_cycle_count = 1 })
unfolding run_half_cycle put_value
past_clock_flips = refl

-- `getValue` reads a bit of an array from the array, also behind a value that was put at the array.
abbrev bit_two : Select
bit_two = element 21 (port 20) 2 4

array_bit :
    (set_sim_value bit_two (sim_bits (word 1 1)) no_values >>= get_bit_vec (port 20))
    ≡ some (word 4 4)
unfolding set_sim_value get_bit_vec put_value
array_bit = refl

-- A memory of two cells of four bits, which start as 5 and 6.
abbrev one_memory : List Default
one_memory = mem_default 7 4 2 (some (5 ∷ 6 ∷ [])) (port 30) (port 31) ∷ []

unfoldable with_memory : SimulatorState
unfolding initialize_state
with_memory = or_initial (initialize_state one_memory)

unfoldable stored : SimulatorState
unfolding write_memory with_memory
stored = or_initial (write_memory 7 (word 1 1) (word 4 9) with_memory)

stored_there : (present stored >>= get_memory 7 (word 1 1)) ≡ some (word 4 9)
unfolding stored with_memory get_memory coreir.BitVec.to_type coreir.BitVec.equals
    coreir.BitVec.is_binary_vector coreir.Quad.eq coreir.BitVec.Compare.gt
    coreir.BitVec.Compare.gt_loop
stored_there = refl

run_half_cycles-rewind_example :
    ((rewind (pos 1) stepped).0 ≡ true)
    × (run_half_cycles accumulator 1 (rewind (pos 1) stepped).1 ≡ some stepped)
unfolding stepped run_half_cycle put_value set_register coreir.BitVec.Arith.add_general_width_bv
run_half_cycles-rewind_example =
    run_half_cycles-rewind accumulator 1 stepped (omega arith) (omega arith)

run_half_cycle-Ticks_example : Ticks 0 ready stepped
unfolding put_value set_register unset_inputs
run_half_cycle-Ticks_example =
    run_half_cycle-Ticks accumulator 0 ready stepped first_state refl refl refl refl refl refl steps

-- Two wires of one bit, which drive the bits of an output.
abbrev joined : Circuit
joined = record {
  verts = graph_input (port 1) ∷ graph_input (port 2) ∷ both_bits ∷ [];
  topo_order = graph_input (port 1) ∷ graph_input (port 2) ∷ both_bits ∷ [];
  main_clock = none;
}
  where
    both_bits : Vertex
    both_bits =
        graph_output ((port 1, element 41 (port 40) 0 2) ∷ (port 2, element 42 (port 40) 1 2) ∷ [])

abbrev two_bits : CircuitState
two_bits = put_value 1 (sim_bits (word 1 1)) (put_value 2 (sim_bits (word 1 0)) no_values)

unfoldable settled : CircuitState
unfolding exe_combinational put_value
settled = or_empty (exe_combinational joined two_bits)

settles : exe_combinational joined two_bits ≡ some settled
unfolding settled put_value
settles = refl

exe_combinational-AllSettled_example :
    AllSettled joined.topo_order settled × AllShow (all_targets joined.topo_order) settled
exe_combinational-AllSettled_example =
    exe_combinational-AllSettled joined two_bits settled refl refl settles

joined_array : get_bit_vec (port 40) settled ≡ some (word 2 1)
unfolding settled exe_combinational put_value get_bit_vec
joined_array = refl

-- The input was 3 and is 4.
abbrev changed : SimulatorState
changed = record {
  circ_states =
      put_value 1 (sim_bits (word 4 3)) no_values
      ∷ put_value 1 (sim_bits (word 4 4)) no_values
      ∷ [];
  state_index = 1;
  clocks = [];
}

abbrev input_is : ℕ → StopConditions
input_is x = (port 1, word 4 x) ∷ []

run_back_reaches_example : run_back (input_is 3) 2 changed ≡ some (rewind (pos 1) changed).1
unfolding rewind hit_watch_point put_value coreir.Quad.eq
run_back_reaches_example = run_back_reaches (input_is 3) 1 changed (omega arith) refl missed
  where
    missed : (k : ℕ) → k < 1 → hit_watch_point (input_is 3) (rewind (pos k) changed).1 ≡ some false
    missed zero low = refl
    missed (suc k) low = absurd (omega (arith, low))

run_back_never_example : run_back (input_is 9) 100 changed ≡ none
unfolding rewind hit_watch_point put_value coreir.Quad.eq
run_back_never_example = run_back_never (input_is 9) changed missed 100
  where
    missed : (k : ℕ) → k ≤ 1 → hit_watch_point (input_is 9) (rewind (pos k) changed).1 ≡ some false
    missed zero low = refl
    missed (suc zero) low = refl
    missed (suc (suc k)) low = absurd (omega (arith, low))
