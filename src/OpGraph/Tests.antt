-- ===== src/OpGraph/Tests.antt =====
-- A graph of four operations, and one with a cycle.
use coreir.Base.{ℕ, ◌≡◌, refl, ◌↔◌, true, none, some, List, [], ◌∷◌, ◌>>=◌, member}
use coreir.OpGraph.{DirectedGraph, empty_graph, add_edge, add_vertex, add_node, add_given}
use coreir.OpGraph.Valid.{IsValid}
use coreir.OpGraph.Build.{add_edge-IsValid, add_node-IsValid, empty_graph-IsValid}
use coreir.OpGraph.Sort.{topological_sort, topological_sort_no_fail}
use coreir.Names.{Name}
use coreir.OpGraph.Netlist.{
  Wire, End, WireNode, OrderedConn, interface_wire, instance_wire, clocked, memory, raddr,
  build_ordered_graph,
}
use coreir.OpGraph.Ordered.{build_ordered_graph-IsValid}
use coreir.OpGraph.Order.{IsOrder}
use coreir.OpGraph.Complete.{
  IsClosed, Falls, topological_sort_no_fail-IsOrder, topological_sort-IsOrder, topological_sort_iff,
}

abbrev Graph : Type 0
Graph = DirectedGraph ℕ ℕ

unfoldable four_vertices : Graph
unfolding add_node add_vertex
four_vertices = (add_vertex (add_vertex (add_node 8 (add_node 7 empty_graph).1).1).1).1

four_vertices-IsValid : IsValid four_vertices
unfolding four_vertices
four_vertices-IsValid =
    let one = (add_node-IsValid 7 empty_graph empty_graph-IsValid).0.1 in
    let two = (add_node-IsValid 8 (add_node 7 empty_graph).1 one).0.1 in
    let three = (add_node-IsValid 0 (add_node 8 (add_node 7 empty_graph).1).1 two).1.1 in
    (add_node-IsValid 0 (add_vertex (add_node 8 (add_node 7 empty_graph).1).1).1 three).1.1

unfoldable with_one : Graph
unfolding add_edge four_vertices
with_one = (add_edge 0 1 four_vertices).1

with_one-IsValid : IsValid with_one
unfolding with_one four_vertices add_node add_vertex
with_one-IsValid = (add_edge-IsValid 0 1 four_vertices four_vertices-IsValid refl refl).0

-- An edge from 0 to 1, from 1 to 3, from 0 to 2 and from 2 to 3.
unfoldable diamond : Graph
unfolding add_edge with_one
diamond = (add_edge 2 3 (add_edge 0 2 (add_edge 1 3 with_one).1).1).1

diamond-IsValid : IsValid diamond
unfolding diamond with_one four_vertices add_node add_vertex add_edge
diamond-IsValid =
    let two = (add_edge-IsValid 1 3 with_one with_one-IsValid refl refl).0 in
    let three = (add_edge-IsValid 0 2 (add_edge 1 3 with_one).1 two refl refl).0 in
    (add_edge-IsValid 2 3 (add_edge 0 2 (add_edge 1 3 with_one).1).1 three refl refl).0

diamond_sorted : topological_sort diamond ≡ some (0 ∷ 2 ∷ 1 ∷ 3 ∷ [])
unfolding topological_sort diamond with_one four_vertices add_node add_vertex add_edge
diamond_sorted = refl

-- With an edge back from 3 to 1, the sort has only the vertices 0 and 2, and the assertion fails.
unfoldable with_cycle : Graph
unfolding diamond add_edge
with_cycle = (add_edge 3 1 diamond).1

cycle_left : topological_sort_no_fail with_cycle ≡ some (0 ∷ 2 ∷ [])
unfolding topological_sort_no_fail with_cycle diamond with_one four_vertices add_node add_vertex
cycle_left = refl

cycle_fails : topological_sort with_cycle ≡ none
unfolding topological_sort with_cycle diamond with_one four_vertices add_node add_vertex
cycle_fails = refl

-- `addVertex(vdisc)` takes a number that `addVertex()` gives out again.
vertex_repeats :
    (add_given 1 (empty_graph {Node = ℕ} {Edge = ℕ}) >>= λ g. some (add_vertex g).1.verts)
    ≡ some (1 ∷ 1 ∷ [])
unfolding add_given add_vertex
vertex_repeats = refl

topological_sort_no_fail-IsOrder_example :
    (order : List ℕ) × (topological_sort_no_fail diamond ≡ some order)
    × IsOrder diamond order
    × IsClosed diamond order
topological_sort_no_fail-IsOrder_example = topological_sort_no_fail-IsOrder diamond diamond-IsValid

topological_sort-IsOrder_example :
    IsOrder diamond (0 ∷ 2 ∷ 1 ∷ 3 ∷ [])
    × ((v : ℕ) → member v diamond.verts ≡ true → member v (0 ∷ 2 ∷ 1 ∷ 3 ∷ []) ≡ true)
topological_sort-IsOrder_example =
    topological_sort-IsOrder diamond (0 ∷ 2 ∷ 1 ∷ 3 ∷ []) diamond-IsValid diamond_sorted

topological_sort_iff_example :
    ((order : List ℕ) × (topological_sort diamond ≡ some order))
    ↔ ((rank : ℕ → ℕ) × Falls diamond rank)
topological_sort_iff_example = topological_sort_iff diamond diamond-IsValid

-- An input into a register, and the register into a memory's read address.
abbrev in_port : End
in_port = record { end_address = 2; sel_str = b'a' ∷ []; parent = interface_wire 1 }

abbrev port_of : ℕ → Name → Wire → End
port_of a s w = record { end_address = a; sel_str = s; parent = w }

abbrev two_connections : List OrderedConn
two_connections =
    (in_port, port_of 11 (b'i' ∷ b'n' ∷ []) (instance_wire 10 clocked))
    ∷ (
      port_of 12 (b'o' ∷ []) (instance_wire 10 clocked),
      port_of 21 raddr (instance_wire 20 memory),
    )
    ∷ []

-- Five vertices: the input, and two for each of the instances.
built_order :
    (build_ordered_graph two_connections >>= λ g. topological_sort g)
    ≡ some (4 ∷ 1 ∷ 3 ∷ 0 ∷ 2 ∷ [])
unfolding build_ordered_graph topological_sort
built_order = refl

build_ordered_graph-IsValid_example :
    (g : DirectedGraph WireNode OrderedConn) × (build_ordered_graph two_connections ≡ some g)
    × IsValid g
    × (order : List ℕ) × (topological_sort_no_fail g ≡ some order)
    × IsOrder g order
    × IsClosed g order
build_ordered_graph-IsValid_example = build_ordered_graph-IsValid two_connections
