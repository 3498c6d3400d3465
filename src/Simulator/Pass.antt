-- ===== src/Simulator/Pass.antt =====
-- `exeCombinational` of src/simulator/interpret.cpp, one pass over the topological order.
use coreir.Base.{
  some_eq, ==→eq, ℕ, ◌≡◌, sym, ap, ◌∙◌, Bool, true, false, ◌&&◌, some, List, [], ◌∷◌, ◌++◌, guard,
  ◌==◌, Bool-cases, inl, inr, member, arith, >>=-eq-some,
}
use coreir.BitVec.{QuadValueBitVector, bit_length, get, set_value}
use coreir.Simulator.State.{
  Select, port, element, address, SimValue, sim_bits, sim_clock, CircuitState, put_value, array_of,
  get_value, get_bit_vec, set_sim_value, to_sim_bit_vector,
}
use coreir.Simulator.Vertices.{
  Vertex, graph_input, graph_output, operation, constant_or_term, register_source,
  register_receiver, memory_source, memory_receiver, Conns, Operation, Circuit, update_inputs,
  compute, update_operation, update_output, update_node_values, update_source, update_each,
  combinational_round, exe_combinational,
}
use coreir.Simulator.Frame.{
  Keeps, touches, destinations, all_writes, set_sim_value-Keeps, update_inputs-Keeps,
  update_output-Keeps, update_node_values-Keeps,
}
use coreir.Simulator.Shown.{AllShow, all_targets, bits_apart, update_each-AllShow}
use coreir.Simulator.Kept.{update_each-Keeps}
use coreir.Simulator.Settled.{
  reads, footprint, arg_reads, disjoint, well_connected, concerns, well_placed, is_topological,
  Connected, IsSettled, AllSettled, Agree, get_value-Agree, compute-Agree, Connected-Agree,
  IsSettled-Agree, Agree-left, Agree-right,
}

and_left : (a b : Bool) → (a && b) ≡ true → a ≡ true
and_left a b h = ground arith

and_right : (a b : Bool) → (a && b) ≡ true → b ≡ true
and_right a b h = ground arith

-- A list that a write is disjoint from has its values kept.
disjoint_absent :
    (xs ys : List ℕ) (b : ℕ) → disjoint xs ys ≡ true → member b xs ≡ true → member b ys ≡ false
disjoint_absent [] ys b h i = cc i
disjoint_absent (x ∷ xs) ys b h i = elim (Bool-cases (b == x)) [
  | inl here ↦ ap (λ a. member a ys) (==→eq b x here) ∙ ground (arith, h)
  | inr there ↦ disjoint_absent xs ys b (ground (arith, h)) (ground (arith, i, there))
]

Agree-writes :
    (xs ys : List ℕ) (c c' : CircuitState)
    → disjoint xs ys ≡ true
    → ((b : ℕ) → member b ys ≡ false → Keeps b c c')
    → Agree xs c c'
Agree-writes xs ys c c' h keeps b i = keeps b (disjoint_absent xs ys b h i)

put_here : (a : ℕ) (v : SimValue) (c : CircuitState) → (put_value a v c).val_map a ≡ some v
unfolding put_value
put_here a v c = ground arith

set_sim_value_there :
    (s : Select) (v : SimValue) (c c' : CircuitState)
    → set_sim_value s v c ≡ some c'
    → c'.val_map (address s) ≡ some v
unfolding set_sim_value
set_sim_value_there (port b) v c c' e = ap (λ d. d.val_map b) (sym (some_eq e)) ∙ put_here b v c
set_sim_value_there (element b parent index arr_len) v c c' e =
    let (bits, is_bits, e1) = >>=-eq-some (to_sim_bit_vector v) _ e in
    let (u, one, e2) = >>=-eq-some (guard (bit_length bits == 1)) _ e1 in
    let (old_bv, has_old, e3) = >>=-eq-some (array_of parent arr_len c) _ e2 in
    let (q, digit, e4) = >>=-eq-some (get bits 0) _ e3 in
    let (new_bv, put, e5) = >>=-eq-some (set_value old_bv index q) _ e4 in
    ap (λ d. d.val_map b) (sym (some_eq e5))
    ∙ put_here b v (put_value (address parent) (sim_bits new_bv) c)

-- A value that was read and put at a destination, behind which other wires are written.
connects :
    (source dest : Select) (conns : Conns) (val : SimValue) (c c1 c' : CircuitState)
    → well_connected ((source, dest) ∷ conns) ≡ true
    → get_value source c ≡ some val
    → set_sim_value dest val c ≡ some c1
    → ((b : ℕ) → member b (destinations conns) ≡ false → Keeps b c1 c')
    → c'.val_map (address dest) ≡ get_value source c'
connects source dest conns val c c1 c' well read put keeps =
    let apart = and_left _ _ well in
    let later = and_left _ _ (and_right _ _ well) in
    let after : Agree (address dest ∷ reads source ∷ []) c1 c' =
      Agree-writes (address dest ∷ reads source ∷ []) (destinations conns) c1 c' later keeps in
    let kept : Keeps (reads source) c c1 =
      set_sim_value-Keeps (reads source) dest val c c1
        (disjoint_absent (reads source ∷ []) (touches dest) (reads source) apart (ground arith))
        put in
    after (address dest) (ground arith)
    ∙ set_sim_value_there dest val c c1 put
    ∙ sym read
    ∙ sym (get_value-Agree source c c1 kept)
    ∙ sym (get_value-Agree source c1 c' (after (reads source) (ground arith)))

update_inputs-Connected :
    (conns : Conns) (c c' : CircuitState)
    → well_connected conns ≡ true
    → update_inputs conns c ≡ some c'
    → Connected conns c'
unfolding update_inputs
update_inputs-Connected [] c c' well e = tt
update_inputs-Connected ((source, dest) ∷ conns) c c' well e =
    let (val, read, e1) = >>=-eq-some (get_value source c) _ e in
    let (c1, put, e2) = >>=-eq-some (set_sim_value dest val c) _ e1 in
    (
      connects source dest conns val c c1 c' well read put
          (λ b h. update_inputs-Keeps b conns c1 c' h e2),
      update_inputs-Connected conns c1 c' (and_right _ _ (and_right _ _ well)) e2,
    )

bits_read :
    (s : Select) (c : CircuitState) (bits : QuadValueBitVector)
    → get_bit_vec s c ≡ some bits
    → get_value s c ≡ some (sim_bits bits)
unfolding get_bit_vec
bits_read s c bits e =
    let (v, read, is_bits) = >>=-eq-some (get_value s c) to_sim_bit_vector e in
    read ∙ ap (λ x. some x) (vector_of v is_bits)
  where
    vector_of : (v : SimValue) → to_sim_bit_vector v ≡ some bits → v ≡ sim_bits bits
    vector_of (sim_bits bv) e = ap sim_bits (cc e)
    vector_of (sim_clock k) e = cc e

update_output-Connected :
    (conns : Conns) (c c' : CircuitState)
    → well_connected conns ≡ true
    → update_output conns c ≡ some c'
    → Connected conns c'
unfolding update_output
update_output-Connected [] c c' well e = tt
update_output-Connected ((source, dest) ∷ conns) c c' well e =
    let (bits, read, e1) = >>=-eq-some (get_bit_vec source c) _ e in
    let (c1, put, e2) = >>=-eq-some (set_sim_value dest (sim_bits bits) c) _ e1 in
    (
      connects source dest conns (sim_bits bits) c c1 c' well (bits_read source c bits read) put
          (λ b h. update_output-Keeps b conns c1 c' h e2),
      update_output-Connected conns c1 c' (and_right _ _ (and_right _ _ well)) e2,
    )

update_operation-IsSettled :
    (op : Operation) (conns : Conns) (out : Select) (c c' : CircuitState)
    → well_placed (operation op conns out) ≡ true
    → update_operation op conns out c ≡ some c'
    → IsSettled (operation op conns out) c'
unfolding update_operation
update_operation-IsSettled op conns out c c' well e =
    let (c1, first, e1) = >>=-eq-some (update_inputs conns c) _ e in
    let (res, computed, e2) = >>=-eq-some (compute op c1) _ e1 in
    let both : Agree (footprint conns ++ arg_reads op) c1 c' =
      Agree-writes (footprint conns ++ arg_reads op) (touches out) c1 c' (and_right _ _ well)
        (λ b h. set_sim_value-Keeps b out (sim_bits res) c1 c' h e2) in
    (
      Connected-Agree conns c1 c' (Agree-left (footprint conns) (arg_reads op) c1 c' both)
          (update_inputs-Connected conns c c1 (and_left _ _ well) first),
      (
        res,
        compute-Agree op c1 c' (Agree-right (footprint conns) (arg_reads op) c1 c' both) ∙ computed,
        set_sim_value_there out (sim_bits res) c1 c' e2,
      ),
    )

update_node_values-IsSettled :
    (vd : Vertex) (c c' : CircuitState)
    → well_placed vd ≡ true
    → update_node_values vd c ≡ some c'
    → IsSettled vd c'
unfolding update_node_values
update_node_values-IsSettled (graph_output conns) c c' well e =
    update_output-Connected conns c c' well e
update_node_values-IsSettled (operation op conns out) c c' well e =
    update_operation-IsSettled op conns out c c' well e
update_node_values-IsSettled (graph_input s) c c' well e = tt
update_node_values-IsSettled constant_or_term c c' well e = tt
update_node_values-IsSettled (register_source name out) c c' well e = tt
update_node_values-IsSettled (register_receiver name conns arg clk reset) c c' well e = tt
update_node_values-IsSettled (memory_source name conns raddr rdata) c c' well e = tt
update_node_values-IsSettled (memory_receiver name conns waddr wdata clk wen) c c' well e = tt

update_each-AllSettled :
    (vds : List Vertex) (c c' : CircuitState)
    → is_topological vds ≡ true
    → update_each update_node_values vds c ≡ some c'
    → AllSettled vds c'
unfolding update_each
update_each-AllSettled [] c c' order e = tt
update_each-AllSettled (vd ∷ vds) c c' order e =
    let (c1, first, rest) = >>=-eq-some (update_node_values vd c) _ e in
    let later = and_right (well_placed vd) _ order in
    (
      IsSettled-Agree vd c1 c'
          (Agree-writes (concerns vd) (all_writes vds) c1 c'
            (and_left (disjoint (concerns vd) (all_writes vds)) _ later)
            (λ b h.
              update_each-Keeps b update_node_values (update_node_values-Keeps b) vds c1 c' h rest))
          (update_node_values-IsSettled vd c c1 (and_left (well_placed vd) _ order) first),
      update_each-AllSettled vds c1 c' (and_right (disjoint (concerns vd) (all_writes vds)) _ later)
          rest,
    )

-- When no vertex of the order writes a wire that it or an earlier one has read or written, and no
-- write undoes an earlier one at a bit of an array, each state that `exeCombinational` returns is
-- settled: the entry of every destination is the value of its source, that of every operation's
-- output is what the operation computes from its arguments there, and where a destination or an
-- output is a bit of an array, `getValue` reads this bit's digit from the array.
pub exe_combinational-AllSettled :
    (m : Circuit) (c c' : CircuitState)
    → is_topological m.topo_order ≡ true
    → bits_apart (all_targets m.topo_order) ≡ true
    → exe_combinational m c ≡ some c'
    → AllSettled m.topo_order c' × AllShow (all_targets m.topo_order) c'
unfolding exe_combinational combinational_round
exe_combinational-AllSettled m c c' order apart e =
    let (c1, first, e1) = >>=-eq-some (combinational_round m c) _ e in
    let (c2, second, e2) = >>=-eq-some (update_each update_source m.verts c1) _ e1 in
    (
      update_each-AllSettled m.topo_order c2 c' order e2,
      update_each-AllShow m.topo_order c2 c' apart e2,
    )
