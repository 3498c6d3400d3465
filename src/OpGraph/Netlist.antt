-- ===== src/OpGraph/Netlist.antt =====
-- The graph of a module's connections: `buildOrderedGraph` of src/ir/op_graph.cpp, behind
-- `buildOrderedConnections`, with the nodes of include/coreir/common/wire_node.h.
use coreir.Base.{
  ℕ, Bool, true, false, not, ◌&&◌, Option, none, some, List, [], ◌∷◌, ◌>>=◌, ◌>>◌, guard, ◌==◌,
  if◌then◌else◌,
}
use coreir.Names.{Name, name_eq}
use coreir.OpGraph.{DirectedGraph, empty_graph, add_node, add_edge, add_edge_label}

-- Registers, and the instances of plugins, are `clocked`; all but the combinational kind are
-- sequential.
pub data InstanceKind : Type 0 where
  combinational clocked memory : InstanceKind

-- An instance, the interface, or a select of a wireable, each with its address.
pub data Wire : Type 0 where
  instance_wire : ℕ → InstanceKind → Wire
  interface_wire : ℕ → Wire
  select_wire : ℕ → (sel_str : Name) → (parent : Wire) → Wire

abbrev pub wire_address : Wire → ℕ
wire_address (instance_wire a k) = a
wire_address (interface_wire a) = a
wire_address (select_wire a sel_str parent) = a

-- Class `WireNode`.
pub record WireNode : Type 0 where
  pub high_bits_dirty : Bool
  pub thread_number : ℕ
  pub wire : Wire
  pub is_sequential : Bool
  pub is_receiver : Bool

abbrev pub wire_node : Wire → (is_sequential is_receiver : Bool) → WireNode
wire_node w is_sequential is_receiver = record {
  high_bits_dirty = true;
  thread_number = 0;
  wire = w;
  is_sequential = is_sequential;
  is_receiver = is_receiver;
}

abbrev pub comb_node : Wire → WireNode
comb_node w = wire_node w false false

abbrev pub receiver_node : Wire → WireNode
receiver_node w = wire_node w true true

abbrev pub output_node : Wire → WireNode
output_node w = wire_node w true false

abbrev pub same_flag : Bool → Bool → Bool
same_flag a b = if a then b else not b

-- operator== on nodes
abbrev pub same_node : WireNode → WireNode → Bool
same_node a b =
    (wire_address a.wire == wire_address b.wire)
    && (same_flag a.is_sequential b.is_sequential && same_flag a.is_receiver b.is_receiver)

abbrev pub is_op_node : Wire → Option Bool
is_op_node (instance_wire a k) = some true
is_op_node (interface_wire a) = none
is_op_node (select_wire a sel_str (interface_wire b)) = some true
is_op_node (select_wire a sel_str (instance_wire b k)) = some false
is_op_node (select_wire a sel_str (select_wire b t p)) = some false

-- An end of a connection: the select with its parent.
pub record End : Type 0 where
  pub end_address : ℕ
  pub sel_str : Name
  pub parent : Wire

-- `extractSource`
unfoldable pub extract_source : ℕ → Name → Wire → Wire
extract_source a sel_str (interface_wire b) = select_wire a sel_str (interface_wire b)
extract_source a sel_str (instance_wire b k) = instance_wire b k
extract_source a sel_str (select_wire b t p) = extract_source b t p

abbrev pub source_of : End → Wire
source_of e = extract_source e.end_address e.sel_str e.parent

-- The source and the sink.
abbrev pub OrderedConn : Type 0
OrderedConn = End × End

-- The graph, and `imap`.
pub record Building : Type 0 where
  pub graph : DirectedGraph WireNode OrderedConn
  pub imap : List (WireNode × ℕ)

unfoldable pub find_node : WireNode → List (WireNode × ℕ) → Option ℕ
find_node w [] = none
find_node w ((n, v) ∷ imap) = if same_node w n then some v else find_node w imap

-- A node that `imap` does not have is added to both; `NGraph::addVertex` asserts `isOpNode`.
unfoldable pub ensure_node : WireNode → Building → Option Building
unfolding find_node add_node
ensure_node w b = elim (find_node w b.imap) [
  | some v ↦ some b
  | none ↦ do
    op ← is_op_node w.wire
    guard op
    let (v, g) = add_node w b.graph
    some (record { graph = g; imap = (w, v) ∷ b.imap })
]

unfoldable pub add_wireable_to_graph : Wire → Building → Option Building
unfolding ensure_node
add_wireable_to_graph (instance_wire a clocked) b =
    ensure_node (output_node (instance_wire a clocked)) b
    >>= ensure_node (receiver_node (instance_wire a clocked))
add_wireable_to_graph (instance_wire a memory) b =
    ensure_node (output_node (instance_wire a memory)) b
    >>= ensure_node (receiver_node (instance_wire a memory))
add_wireable_to_graph w b = ensure_node (comb_node w) b

abbrev pub raddr : Name
raddr = b'r' ∷ b'a' ∷ b'd' ∷ b'd' ∷ b'r' ∷ []

abbrev pub source_node : Wire → WireNode
source_node (instance_wire a combinational) = comb_node (instance_wire a combinational)
source_node (instance_wire a k) = output_node (instance_wire a k)
source_node w = comb_node w

-- The read address of a memory is received by its output.
abbrev pub sink_node : Name → Wire → WireNode
sink_node sel_str (instance_wire a memory) =
    if name_eq sel_str raddr
    then output_node (instance_wire a memory)
    else receiver_node (instance_wire a memory)
sink_node sel_str (instance_wire a clocked) = receiver_node (instance_wire a clocked)
sink_node sel_str w = comb_node w

unfoldable pub add_connection : OrderedConn → Building → Option Building
unfolding find_node add_edge add_edge_label
add_connection (source, sink) b = do
  c1_disc ← find_node (source_node (source_of source)) b.imap
  c2_disc ← find_node (sink_node sink.sel_str (source_of sink)) b.imap
  let (ed, g) = add_edge c1_disc c2_disc b.graph
  some (record b { graph = add_edge_label ed (source, sink) g })

unfoldable pub add_wireables : List OrderedConn → Building → Option Building
unfolding add_wireable_to_graph extract_source
add_wireables [] b = some b
add_wireables ((source, sink) ∷ conns) b = do
  b1 ← add_wireable_to_graph (source_of source) b
  b2 ← add_wireable_to_graph (source_of sink) b1
  add_wireables conns b2

unfoldable pub add_connections : List OrderedConn → Building → Option Building
unfolding add_connection
add_connections [] b = some b
add_connections (conn ∷ conns) b = add_connection conn b >>= add_connections conns

unfoldable pub build_ordered_graph : List OrderedConn → Option (DirectedGraph WireNode OrderedConn)
unfolding add_wireables add_connections
build_ordered_graph conns = do
  b ← add_wireables conns (record { graph = empty_graph; imap = [] })
  b' ← add_connections conns b
  some b'.graph
