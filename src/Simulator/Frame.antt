-- ===== src/Simulator/Frame.antt =====
-- The wires that the update of a vertex writes.
use coreir.Base.{
  some_eq, ℕ, ◌≡◌, sym, ap, ◌∙◌, false, some, List, [], ◌∷◌, ◌++◌, guard, ◌==◌, if◌then◌else◌,
  member, arith, >>=-eq-some,
}
use coreir.Base.Once.{member-append}
use coreir.BitVec.{bit_length, get, set_value}
use coreir.Simulator.State.{
  Select, port, element, address, SimValue, sim_bits, CircuitState, put_value, array_of, get_value,
  get_bit_vec, set_sim_value, to_sim_bit_vector, get_register, get_memory,
}
use coreir.Simulator.Vertices.{
  Vertex, graph_input, graph_output, operation, constant_or_term, register_source,
  register_receiver, memory_source, memory_receiver, Conns, Operation, update_inputs, compute,
  update_operation, update_output, update_node_values, update_register_output, update_memory_output,
  update_source,
}

abbrev pub touches : Select → List ℕ
touches (port a) = a ∷ []
touches (element a parent index arr_len) = a ∷ address parent ∷ []

abbrev pub destinations : Conns → List ℕ
destinations [] = []
destinations ((source, dest) ∷ conns) = touches dest ++ destinations conns

abbrev pub writes : Vertex → List ℕ
writes (graph_input s) = []
writes (graph_output conns) = destinations conns
writes (operation op conns out) = destinations conns ++ touches out
writes constant_or_term = []
writes (register_source name out) = touches out
writes (register_receiver name conns arg clk reset) = destinations conns
writes (memory_source name conns raddr rdata) = destinations conns ++ touches rdata
writes (memory_receiver name conns waddr wdata clk wen) = destinations conns

abbrev pub all_writes : List Vertex → List ℕ
all_writes [] = []
all_writes (vd ∷ vds) = writes vd ++ all_writes vds

module _ (a : ℕ) where
  abbrev pub Keeps : CircuitState → CircuitState → Type 0
  Keeps c c' = c'.val_map a ≡ c.val_map a

  pub same : (c c' : CircuitState) → some c ≡ some c' → Keeps c c'
  same c c' e = ap (λ d. d.val_map a) (sym (some_eq e))

  pub absent_left : (xs ys : List ℕ) → member a (xs ++ ys) ≡ false → member a xs ≡ false
  absent_left xs ys h = ground (arith, member-append a xs ys, h)

  pub absent_right : (xs ys : List ℕ) → member a (xs ++ ys) ≡ false → member a ys ≡ false
  absent_right xs ys h = ground (arith, member-append a xs ys, h)

  put_value-Keeps :
      (b : ℕ) (v : SimValue) (c : CircuitState) → (a == b) ≡ false → Keeps c (put_value b v c)
  unfolding put_value
  put_value-Keeps b v c h = ap (λ t. if t then some v else c.val_map a) h

  pub set_sim_value-Keeps :
      (s : Select) (v : SimValue) (c c' : CircuitState)
      → member a (touches s) ≡ false
      → set_sim_value s v c ≡ some c'
      → Keeps c c'
  unfolding set_sim_value
  set_sim_value-Keeps (port b) v c c' h e =
      ap (λ d. d.val_map a) (sym (some_eq e)) ∙ put_value-Keeps b v c (ground (arith, h))
  set_sim_value-Keeps (element b parent index arr_len) v c c' h e =
      let (bits, is_bits, e1) = >>=-eq-some (to_sim_bit_vector v) _ e in
      let (u, one, e2) = >>=-eq-some (guard (bit_length bits == 1)) _ e1 in
      let (old_bv, has_old, e3) = >>=-eq-some (array_of parent arr_len c) _ e2 in
      let (q, digit, e4) = >>=-eq-some (get bits 0) _ e3 in
      let (new_bv, put, e5) = >>=-eq-some (set_value old_bv index q) _ e4 in
      ap (λ d. d.val_map a) (sym (some_eq e5))
      ∙ put_value-Keeps b v (put_value (address parent) (sim_bits new_bv) c) (ground (arith, h))
      ∙ put_value-Keeps (address parent) (sim_bits new_bv) c (ground (arith, h))

  pub update_inputs-Keeps :
      (conns : Conns) (c c' : CircuitState)
      → member a (destinations conns) ≡ false
      → update_inputs conns c ≡ some c'
      → Keeps c c'
  unfolding update_inputs
  update_inputs-Keeps [] c c' h e = same c c' e
  update_inputs-Keeps ((source, dest) ∷ conns) c c' h e =
      let (val, read, e1) = >>=-eq-some (get_value source c) _ e in
      let (c1, put, e2) = >>=-eq-some (set_sim_value dest val c) _ e1 in
      update_inputs-Keeps conns c1 c' (absent_right (touches dest) (destinations conns) h) e2
      ∙ set_sim_value-Keeps dest val c c1 (absent_left (touches dest) (destinations conns) h) put

  pub update_output-Keeps :
      (conns : Conns) (c c' : CircuitState)
      → member a (destinations conns) ≡ false
      → update_output conns c ≡ some c'
      → Keeps c c'
  unfolding update_output
  update_output-Keeps [] c c' h e = same c c' e
  update_output-Keeps ((source, dest) ∷ conns) c c' h e =
      let (bits, read, e1) = >>=-eq-some (get_bit_vec source c) _ e in
      let (c1, put, e2) = >>=-eq-some (set_sim_value dest (sim_bits bits) c) _ e1 in
      update_output-Keeps conns c1 c' (absent_right (touches dest) (destinations conns) h) e2
      ∙ set_sim_value-Keeps dest (sim_bits bits) c c1
          (absent_left (touches dest) (destinations conns) h) put

  update_operation-Keeps :
      (op : Operation) (conns : Conns) (out : Select) (c c' : CircuitState)
      → member a (destinations conns ++ touches out) ≡ false
      → update_operation op conns out c ≡ some c'
      → Keeps c c'
  unfolding update_operation
  update_operation-Keeps op conns out c c' h e =
      let (c1, first, e1) = >>=-eq-some (update_inputs conns c) _ e in
      let (res, computed, e2) = >>=-eq-some (compute op c1) _ e1 in
      set_sim_value-Keeps out (sim_bits res) c1 c'
        (absent_right (destinations conns) (touches out) h) e2
      ∙ update_inputs-Keeps conns c c1 (absent_left (destinations conns) (touches out) h) first

  pub update_node_values-Keeps :
      (vd : Vertex) (c c' : CircuitState)
      → member a (writes vd) ≡ false
      → update_node_values vd c ≡ some c'
      → Keeps c c'
  unfolding update_node_values
  update_node_values-Keeps (graph_output conns) c c' h e = update_output-Keeps conns c c' h e
  update_node_values-Keeps (operation op conns out) c c' h e =
      update_operation-Keeps op conns out c c' h e
  update_node_values-Keeps (graph_input s) c c' h e = same c c' e
  update_node_values-Keeps constant_or_term c c' h e = same c c' e
  update_node_values-Keeps (register_source name out) c c' h e = same c c' e
  update_node_values-Keeps (register_receiver name conns arg clk reset) c c' h e = same c c' e
  update_node_values-Keeps (memory_source name conns raddr rdata) c c' h e = same c c' e
  update_node_values-Keeps (memory_receiver name conns waddr wdata clk wen) c c' h e = same c c' e

  pub update_source-Keeps :
      (vd : Vertex) (c c' : CircuitState)
      → member a (writes vd) ≡ false
      → update_source vd c ≡ some c'
      → Keeps c c'
  unfolding update_source update_register_output update_memory_output
  update_source-Keeps (register_source name out) c c' h e =
      let (bits, read, e1) = >>=-eq-some (get_register name c) _ e in
      set_sim_value-Keeps out (sim_bits bits) c c' h e1
  update_source-Keeps (memory_source name conns raddr rdata) c c' h e =
      let (c1, first, e1) = >>=-eq-some (update_inputs conns c) _ e in
      let (addr, read, e2) = >>=-eq-some (get_bit_vec raddr c1) _ e1 in
      let (bits, found, e3) = >>=-eq-some (get_memory name addr c1) _ e2 in
      set_sim_value-Keeps rdata (sim_bits bits) c1 c'
        (absent_right (destinations conns) (touches rdata) h) e3
      ∙ update_inputs-Keeps conns c c1 (absent_left (destinations conns) (touches rdata) h) first
  update_source-Keeps (graph_input s) c c' h e = same c c' e
  update_source-Keeps (graph_output conns) c c' h e = same c c' e
  update_source-Keeps (operation op conns out) c c' h e = same c c' e
  update_source-Keeps constant_or_term c c' h e = same c c' e
  update_source-Keeps (register_receiver name conns arg clk reset) c c' h e = same c c' e
  update_source-Keeps (memory_receiver name conns waddr wdata clk wen) c c' h e = same c c' e
