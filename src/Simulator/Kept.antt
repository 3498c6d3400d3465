-- ===== src/Simulator/Kept.antt =====
-- The wires that a half cycle of src/simulator/interpret.cpp writes.
use coreir.Base.{
  some_eq, ℕ, ◌≡◌, refl, sym, ap, ◌∙◌, Bool, true, false, Option, none, some, List, [], ◌∷◌, ◌>>=◌,
  if◌then◌else◌, member, >>=-eq-some,
}
use coreir.BitVec.{QuadValueBitVector, equals, from_int}
use coreir.Simulator.State.{Select, ClockValue, CircuitState, get_bit_vec, set_register, set_memory}
use coreir.Simulator.Memory.{set_addr}
use coreir.Simulator.Vertices.{
  Vertex, graph_input, graph_output, operation, constant_or_term, register_source,
  register_receiver, memory_source, memory_receiver, Conns, Reset, Circuit, update_inputs,
  update_node_values, clock_of, rising, reset_register, update_register_value, update_memory_value,
  update_sequential, update_source, update_each, combinational_round, exe_combinational,
  exe_sequential,
}
use coreir.Simulator.Frame.{
  Keeps, writes, all_writes, destinations, same, absent_left, absent_right, update_inputs-Keeps,
  update_node_values-Keeps, update_source-Keeps,
}

module _ (a : ℕ) where
  chosen : (b : Bool) (c d : CircuitState) → Keeps a c d → Keeps a c (if b then d else c)
  chosen true c d h = h
  chosen false c d h = refl

  set_register-Keeps :
      (name : ℕ) (bits : QuadValueBitVector) (c : CircuitState)
      → Keeps a c (set_register name bits c)
  unfolding set_register
  set_register-Keeps name bits c = refl

  set_memory-Keeps :
      (name : ℕ) (addr bits : QuadValueBitVector) (c c' : CircuitState)
      → set_memory name addr bits c ≡ some c'
      → Keeps a c c'
  unfolding set_memory
  set_memory-Keeps name addr bits c c' e =
      let (mem, there, e1) = >>=-eq-some (c.memories name) _ e in
      let (mem', put, e2) = >>=-eq-some (set_addr addr bits mem) _ e1 in
      ap (λ d. d.val_map a) (sym (some_eq e2))

  module _ (clocks : List ClockValue) where
    reset_register-Keeps :
        (name : ℕ) (reset : Option Reset) (c c' : CircuitState)
        → reset_register clocks name reset c ≡ some c'
        → Keeps a c c'
    unfolding reset_register
    reset_register-Keeps name none c c' e = same a c c' e
    reset_register-Keeps name (some r) c c' e =
        let (bit, read, e1) = >>=-eq-some (get_bit_vec r.arst c) _ e in
        let (level, made, e2) = >>=-eq-some (from_int 1 (if r.posedge then 1 else 0)) _ e1 in
        let (on, tested, e3) = >>=-eq-some (equals bit level) _ e2 in
        ap (λ d. d.val_map a) (sym (some_eq e3))
        ∙ chosen on c (set_register name r.init c) (set_register-Keeps name r.init c)

    update_register_value-Keeps :
        (name : ℕ) (conns : Conns) (arg clk : Select) (reset : Option Reset) (c c' : CircuitState)
        → member a (destinations conns) ≡ false
        → update_register_value clocks name conns arg clk reset c ≡ some c'
        → Keeps a c c'
    unfolding update_register_value
    update_register_value-Keeps name conns arg clk reset c c' h e =
        let (c1, first, e1) = >>=-eq-some (update_inputs conns c) _ e in
        let (bits, read, e2) = >>=-eq-some (get_bit_vec arg c1) _ e1 in
        let (now, ticked, e3) = >>=-eq-some (clock_of clocks clk c1) _ e2 in
        reset_register-Keeps name reset _ c' e3
        ∙ chosen (rising now) c1 (set_register name bits c1) (set_register-Keeps name bits c1)
        ∙ update_inputs-Keeps a conns c c1 h first

    update_memory_value-Keeps :
        (name : ℕ) (conns : Conns) (waddr wdata clk wen : Select) (c c' : CircuitState)
        → member a (destinations conns) ≡ false
        → update_memory_value clocks name conns waddr wdata clk wen c ≡ some c'
        → Keeps a c c'
    unfolding update_memory_value
    update_memory_value-Keeps name conns waddr wdata clk wen c c' h e =
        let (c1, first, e1) = >>=-eq-some (update_inputs conns c) _ e in
        let (addr, read_addr, e2) = >>=-eq-some (get_bit_vec waddr c1) _ e1 in
        let (bits, read, e3) = >>=-eq-some (get_bit_vec wdata c1) _ e2 in
        let (en, read_en, e4) = >>=-eq-some (get_bit_vec wen c1) _ e3 in
        let (now, ticked, e5) = >>=-eq-some (clock_of clocks clk c1) _ e4 in
        on_edge addr bits en (rising now) c1 e5 ∙ update_inputs-Keeps a conns c c1 h first
      where
        when_enabled :
            (addr bits : QuadValueBitVector) (enabled : Bool) (c1 : CircuitState)
            → elim enabled [ true ↦ set_memory name addr bits c1 | false ↦ some c1 ] ≡ some c'
            → Keeps a c1 c'
        when_enabled addr bits true c1 e = set_memory-Keeps name addr bits c1 c' e
        when_enabled addr bits false c1 e = same a c1 c' e

        on_edge :
            (addr bits en : QuadValueBitVector) (edge : Bool) (c1 : CircuitState)
            → elim edge [
              | false ↦ some c1
              | true ↦ from_int 1 1 >>= λ one. equals en one >>= λ enabled. elim enabled [
                | true ↦ set_memory name addr bits c1
                | false ↦ some c1
              ]
            ]
              ≡ some c'
            → Keeps a c1 c'
        on_edge addr bits en false c1 e = same a c1 c' e
        on_edge addr bits en true c1 e =
            let (one, made, e1) = >>=-eq-some (from_int 1 1) _ e in
            let (enabled, tested, e2) = >>=-eq-some (equals en one) _ e1 in
            when_enabled addr bits enabled c1 e2

    update_sequential-Keeps :
        (vd : Vertex) (c c' : CircuitState)
        → member a (writes vd) ≡ false
        → update_sequential clocks vd c ≡ some c'
        → Keeps a c c'
    unfolding update_sequential
    update_sequential-Keeps (register_receiver name conns arg clk reset) c c' h e =
        update_register_value-Keeps name conns arg clk reset c c' h e
    update_sequential-Keeps (memory_receiver name conns waddr wdata clk wen) c c' h e =
        update_memory_value-Keeps name conns waddr wdata clk wen c c' h e
    update_sequential-Keeps (graph_input s) c c' h e = same a c c' e
    update_sequential-Keeps (graph_output conns) c c' h e = same a c c' e
    update_sequential-Keeps (operation op conns out) c c' h e = same a c c' e
    update_sequential-Keeps constant_or_term c c' h e = same a c c' e
    update_sequential-Keeps (register_source name out) c c' h e = same a c c' e
    update_sequential-Keeps (memory_source name conns raddr rdata) c c' h e = same a c c' e

  pub update_each-Keeps :
      (update : Vertex → CircuitState → Option CircuitState)
      → ((vd : Vertex) (c c' : CircuitState)
          → member a (writes vd) ≡ false
          → update vd c ≡ some c'
          → Keeps a c c')
      → (vds : List Vertex) (c c' : CircuitState) → member a (all_writes vds) ≡ false
      → update_each update vds c ≡ some c'
      → Keeps a c c'
  unfolding update_each
  update_each-Keeps update one [] c c' h e = same a c c' e
  update_each-Keeps update one (vd ∷ vds) c c' h e =
      let (c1, first, rest) = >>=-eq-some (update vd c) _ e in
      update_each-Keeps update one vds c1 c' (absent_right a (writes vd) (all_writes vds) h) rest
      ∙ one vd c c1 (absent_left a (writes vd) (all_writes vds) h) first

  module _ (m : Circuit) (off_verts : member a (all_writes m.verts) ≡ false)
      (off_order : member a (all_writes m.topo_order) ≡ false) where
    combinational_round-Keeps :
        (c c' : CircuitState) → combinational_round m c ≡ some c' → Keeps a c c'
    unfolding combinational_round
    combinational_round-Keeps c c' e =
        let (c1, first, rest) = >>=-eq-some (update_each update_source m.verts c) _ e in
        update_each-Keeps update_node_values (update_node_values-Keeps a) m.topo_order c1 c'
          off_order rest
        ∙ update_each-Keeps update_source (update_source-Keeps a) m.verts c c1 off_verts first

    pub exe_combinational-Keeps :
        (c c' : CircuitState) → exe_combinational m c ≡ some c' → Keeps a c c'
    unfolding exe_combinational
    exe_combinational-Keeps c c' e =
        let (c1, first, rest) = >>=-eq-some (combinational_round m c) _ e in
        combinational_round-Keeps c1 c' rest ∙ combinational_round-Keeps c c1 first

    pub exe_sequential-Keeps :
        (clocks : List ClockValue) (c c' : CircuitState)
        → exe_sequential m clocks c ≡ some c'
        → Keeps a c c'
    unfolding exe_sequential
    exe_sequential-Keeps clocks c c' e =
        update_each-Keeps (update_sequential clocks) (update_sequential-Keeps clocks) m.verts c c'
          off_verts e
