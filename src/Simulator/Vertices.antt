-- ===== src/Simulator/Vertices.antt =====
-- What the interpreter does at each vertex of the graph of a flat module: `updateNodeValues`,
-- `updateRegisterValue` and the other updates of src/simulator/interpret.cpp, and `exeCombinational`
-- and `exeSequential` for a graph with no combinational loop.
use coreir.Base.{
  ℕ, Bool, true, false, ◌&&◌, Option, none, some, List, [], ◌∷◌, ◌>>=◌, ◌==◌, if◌then◌else◌,
  get_elem?,
}
use coreir.BitVec.{QuadValueBitVector, equals, from_int}
use coreir.Simulator.Operations.{BinaryOp, UnaryOp, binary_op, unary_op, mux_bits}
use coreir.Simulator.State.{
  Select, sim_bits, ClockValue, CircuitState, get_value, get_bit_vec, set_sim_value, to_clock,
  set_register, get_register, set_memory, get_memory,
}

-- `getInputConnections`: sources and destinations.
abbrev pub Conns : Type 0
Conns = List (Select × Select)

pub data Operation : Type 0 where
  unary : UnaryOp → (arg : Select) → Operation
  binary : BinaryOp → (in0 in1 : Select) → Operation
  mux : (in0 in1 selected : Select) → Operation

-- `arst_posedge` and `init` of a `coreir.reg_arst`, and its port.
pub record Reset : Type 0 where
  pub arst : Select
  pub posedge : Bool
  pub init : QuadValueBitVector

-- A `WireNode` with the select it is, or with what is used of its instance. A sequential instance
-- has two vertices: the source of its output and the receiver of its inputs.
pub data Vertex : Type 0 where
  graph_input : Select → Vertex
  graph_output : Conns → Vertex
  operation : Operation → Conns → (out : Select) → Vertex
  constant_or_term : Vertex
  register_source : (name : ℕ) → (out : Select) → Vertex
  register_receiver : (name : ℕ) → Conns → (arg clk : Select) → Option Reset → Vertex
  memory_source : (name : ℕ) → Conns → (raddr rdata : Select) → Vertex
  memory_receiver : (name : ℕ) → Conns → (waddr wdata clk wen : Select) → Vertex

unfoldable pub update_inputs : Conns → CircuitState → Option CircuitState
unfolding get_value set_sim_value
update_inputs [] c = some c
update_inputs ((source, dest) ∷ conns) c = do
  val ← get_value source c
  c' ← set_sim_value dest val c
  update_inputs conns c'

unfoldable pub compute : Operation → CircuitState → Option QuadValueBitVector
unfolding get_bit_vec unary_op binary_op mux_bits
compute (unary op arg) c = get_bit_vec arg c >>= unary_op op
compute (binary op in0 in1) c = do
  bv1 ← get_bit_vec in0 c
  bv2 ← get_bit_vec in1 c
  binary_op op bv1 bv2
compute (mux in0 in1 selected) c = do
  bv1 ← get_bit_vec in0 c
  bv2 ← get_bit_vec in1 c
  sel_b ← get_bit_vec selected c
  mux_bits bv1 bv2 sel_b

-- `updateBitVecUnop`, `updateBitVecBinop`, `updateMuxNode` and the like.
unfoldable pub update_operation :
    Operation → Conns → (out : Select) → CircuitState → Option CircuitState
unfolding update_inputs compute set_sim_value
update_operation op conns out c = do
  c' ← update_inputs conns c
  res ← compute op c'
  set_sim_value out (sim_bits res) c'

unfoldable pub update_output : Conns → CircuitState → Option CircuitState
unfolding get_bit_vec set_sim_value
update_output [] c = some c
update_output ((arg, receiver) ∷ conns) c = do
  s ← get_bit_vec arg c
  c' ← set_sim_value receiver (sim_bits s) c
  update_output conns c'

-- `updateNodeValues`: inputs, constants and sequential elements are left alone.
unfoldable pub update_node_values : Vertex → CircuitState → Option CircuitState
unfolding update_output update_operation
update_node_values (graph_output conns) c = update_output conns c
update_node_values (operation op conns out) c = update_operation op conns out c
update_node_values _ c = some c

unfoldable pub update_register_output :
    (name : ℕ) (out : Select) → CircuitState → Option CircuitState
unfolding set_sim_value
update_register_output name out c = do
  new_rdata ← get_register name c
  set_sim_value out (sim_bits new_rdata) c

unfoldable pub update_memory_output :
    (name : ℕ) → Conns → (raddr rdata : Select) → CircuitState → Option CircuitState
unfolding update_inputs get_bit_vec get_memory set_sim_value
update_memory_output name conns raddr rdata c = do
  c' ← update_inputs conns c
  raddr_bits ← get_bit_vec raddr c'
  new_rdata ← get_memory name raddr_bits c'
  set_sim_value rdata (sim_bits new_rdata) c'

abbrev pub rising : ClockValue → Bool
rising clk = (clk.last_val == 0) && (clk.val == 1)

module _ (clocks : List ClockValue) where
  abbrev pub clock_of : Select → CircuitState → Option ClockValue
  clock_of s c = get_value s c >>= to_clock >>= get_elem? clocks

  -- The reset of a `coreir.reg_arst`.
  unfoldable pub reset_register : (name : ℕ) → Option Reset → CircuitState → Option CircuitState
  unfolding get_bit_vec set_register equals
  reset_register name none c = some c
  reset_register name (some r) c = do
    arst_bit ← get_bit_vec r.arst c
    level ← from_int 1 (if r.posedge then 1 else 0)
    on ← equals arst_bit level
    some (if on then set_register name r.init c else c)

  -- The assertions on the stored value hold, and are left out.
  unfoldable pub update_register_value :
      (name : ℕ) → Conns → (arg clk : Select) → Option Reset → CircuitState → Option CircuitState
  unfolding update_inputs get_bit_vec get_value set_register reset_register
  update_register_value name conns arg clk reset c = do
    c' ← update_inputs conns c
    bv1 ← get_bit_vec arg c'
    clk_val ← clock_of clk c'
    reset_register name reset (if rising clk_val then set_register name bv1 c' else c')

  unfoldable pub update_memory_value :
      (name : ℕ) → Conns → (waddr wdata clk wen : Select) → CircuitState → Option CircuitState
  unfolding update_inputs get_bit_vec get_value set_memory equals
  update_memory_value name conns waddr wdata clk wen c = do
    c' ← update_inputs conns c
    waddr_bits ← get_bit_vec waddr c'
    wdata_bits ← get_bit_vec wdata c'
    en_bit ← get_bit_vec wen c'
    clk_val ← clock_of clk c'
    elim (rising clk_val) [
      | false ↦ some c'
      | true ↦ do
        one ← from_int 1 1
        enabled ← equals en_bit one
        elim enabled [ true ↦ set_memory name waddr_bits wdata_bits c' | false ↦ some c' ]
    ]

  -- One vertex in the loop of `exeSequential`.
  unfoldable pub update_sequential : Vertex → CircuitState → Option CircuitState
  unfolding update_register_value update_memory_value
  update_sequential (register_receiver name conns arg clk reset) c =
      update_register_value name conns arg clk reset c
  update_sequential (memory_receiver name conns waddr wdata clk wen) c =
      update_memory_value name conns waddr wdata clk wen c
  update_sequential _ c = some c

-- One vertex in the first loop of `exeCombinational`.
unfoldable pub update_source : Vertex → CircuitState → Option CircuitState
unfolding update_register_output update_memory_output
update_source (register_source name out) c = update_register_output name out c
update_source (memory_source name conns raddr rdata) c =
    update_memory_output name conns raddr rdata c
update_source _ c = some c

unfoldable pub update_each :
    (Vertex → CircuitState → Option CircuitState) → List Vertex → CircuitState → Option CircuitState
update_each update [] c = some c
update_each update (vd ∷ vds) c = update vd c >>= update_each update vds

-- The vertices in the order of the graph, and in topological order.
pub record Circuit : Type 0 where
  pub verts : List Vertex
  pub topo_order : List Vertex
  pub main_clock : Option Select

-- One round of the outer loop of `exeCombinational`, which makes two.
unfoldable pub combinational_round : Circuit → CircuitState → Option CircuitState
unfolding update_each update_source update_node_values
combinational_round m c =
    update_each update_source m.verts c >>= update_each update_node_values m.topo_order

unfoldable pub exe_combinational : Circuit → CircuitState → Option CircuitState
unfolding combinational_round
exe_combinational m c = combinational_round m c >>= combinational_round m

unfoldable pub exe_sequential : Circuit → List ClockValue → CircuitState → Option CircuitState
unfolding update_each update_sequential
exe_sequential m clocks c = update_each (update_sequential clocks) m.verts c
