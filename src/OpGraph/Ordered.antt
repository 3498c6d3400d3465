-- ===== src/OpGraph/Ordered.antt =====
-- The two loops of `buildOrderedGraph` of src/ir/op_graph.cpp.
use coreir.Base.{ℕ, ◌≡◌, refl, ap, ◌∙◌, true, some, List, [], ◌∷◌, ◌>>=◌, member}
use coreir.OpGraph.{DirectedGraph, empty_graph, add_edge, add_edge_label}
use coreir.OpGraph.Valid.{IsValid}
use coreir.OpGraph.Build.{add_edge-IsValid, empty_graph-IsValid}
use coreir.OpGraph.Netlist.{
  WireNode, End, source_of, OrderedConn, Building, find_node, add_wireable_to_graph, source_node,
  sink_node, add_connection, add_wireables, add_connections, build_ordered_graph,
}
use coreir.OpGraph.Sort.{topological_sort_no_fail}
use coreir.OpGraph.Order.{IsOrder}
use coreir.OpGraph.Complete.{IsClosed, topological_sort_no_fail-IsOrder}
use coreir.OpGraph.Built.{
  Known, IsBuilt, Grows, IsReady, IsReady-kept, add_wireable_to_graph-Grows, extract_source_op,
  source-Known, sink-Known,
}

-- Both ends of each connection have their nodes.
abbrev AllReady : List OrderedConn → Building → Type 0
AllReady [] b = Unit {0}
AllReady ((source, sink) ∷ conns) b =
    IsReady (source_of source) b × IsReady (source_of sink) b × AllReady conns b

AllReady-kept :
    (conns : List OrderedConn) (b c : Building)
    → ((u : WireNode) → Known u b → Known u c)
    → AllReady conns b
    → AllReady conns c
AllReady-kept [] b c kept r = tt
AllReady-kept ((source, sink) ∷ conns) b c kept (r, t, rest) = (
  IsReady-kept (source_of source) b c kept r,
  IsReady-kept (source_of sink) b c kept t,
  AllReady-kept conns b c kept rest,
)

add_wireables-Grows :
    (conns : List OrderedConn) (b : Building)
    → IsBuilt b
    → (grown : Grows b (add_wireables conns b)) × AllReady conns grown.next
unfolding add_wireables
add_wireables-Grows [] b built =
    (record { next = b; done = refl; built = built; kept = λ u k. k }, tt)
add_wireables-Grows ((source, sink) ∷ conns) b built =
    let (one, ready) =
      add_wireable_to_graph-Grows (source_of source) b built
        (extract_source_op source.end_address source.sel_str source.parent) in
    let (two, ready') =
      add_wireable_to_graph-Grows (source_of sink) one.next one.built
        (extract_source_op sink.end_address sink.sel_str sink.parent) in
    let (rest, all) = add_wireables-Grows conns two.next two.built in
    (
      record {
        next = rest.next;
        done =
            ap (λ o. o >>= λ b1. add_wireable_to_graph (source_of sink) b1 >>= add_wireables conns)
              one.done
            ∙ ap (λ o. o >>= add_wireables conns) two.done
            ∙ rest.done;
        built = rest.built;
        kept = λ u k. rest.kept u (two.kept u (one.kept u k));
      },
      (
        IsReady-kept (source_of source) one.next rest.next (λ u k. rest.kept u (two.kept u k))
            ready,
        IsReady-kept (source_of sink) two.next rest.next rest.kept ready',
        all,
      ),
    )

abbrev with_edge : (s e : ℕ) → OrderedConn → Building → Building
with_edge s e conn b = record b {
  graph = add_edge_label (add_edge s e b.graph).0 conn (add_edge s e b.graph).1;
}

add_edge_label-IsValid :
    (ed : ℕ) (conn : OrderedConn) (g : DirectedGraph WireNode OrderedConn)
    → IsValid g
    → IsValid (add_edge_label ed conn g)
unfolding add_edge_label
add_edge_label-IsValid ed conn g v = record {
  leaves = v.leaves;
  enters = v.enters;
  out_ends = v.out_ends;
  in_ends = v.in_ends;
  out_once = v.out_once;
  from_vertex = v.from_vertex;
  to_vertex = v.to_vertex;
  verts_once = v.verts_once;
  verts_low = v.verts_low;
  edges_low = v.edges_low;
}

same_verts :
    (s e : ℕ) (conn : OrderedConn) (b : Building)
    → (with_edge s e conn b).graph.verts ≡ b.graph.verts
unfolding add_edge_label add_edge
same_verts s e conn b = refl

with_edge-IsBuilt :
    (s e : ℕ) (conn : OrderedConn) (b : Building)
    → IsBuilt b
    → member s b.graph.verts ≡ true
    → member e b.graph.verts ≡ true
    → IsBuilt (with_edge s e conn b)
with_edge-IsBuilt s e conn b built hs he = record {
  valid =
      add_edge_label-IsValid (add_edge s e b.graph).0 conn (add_edge s e b.graph).1
        (add_edge-IsValid s e b.graph built.valid hs he).0;
  vertices = λ w v h. ap (λ vs. member v vs) (same_verts s e conn b) ∙ built.vertices w v h;
}

add_connection-Grows :
    (source sink : End) (b : Building)
    → IsBuilt b
    → IsReady (source_of source) b
    → IsReady (source_of sink) b
    → Grows b (add_connection (source, sink) b)
unfolding add_connection
add_connection-Grows source sink b built r t =
    let (s, at_source) = source-Known (source_of source) b r in
    let (e, at_sink) = sink-Known sink.sel_str (source_of sink) b t in
    record {
      next = with_edge s e (source, sink) b;
      done = rw (at_source, at_sink) refl;
      built =
          with_edge-IsBuilt s e (source, sink) b built
            (built.vertices (source_node (source_of source)) s at_source)
            (built.vertices (sink_node sink.sel_str (source_of sink)) e at_sink);
      kept = λ u k. k;
    }

add_connections-Grows :
    (conns : List OrderedConn) (b : Building)
    → IsBuilt b
    → AllReady conns b
    → Grows b (add_connections conns b)
unfolding add_connections
add_connections-Grows [] b built ready = record {
  next = b;
  done = refl;
  built = built;
  kept = λ u k. k;
}
add_connections-Grows ((source, sink) ∷ conns) b built (r, t, ready) =
    let one = add_connection-Grows source sink b built r t in
    let rest =
      add_connections-Grows conns one.next one.built
        (AllReady-kept conns b one.next one.kept ready) in
    record {
      next = rest.next;
      done = ap (λ o. o >>= add_connections conns) one.done ∙ rest.done;
      built = rest.built;
      kept = λ u k. rest.kept u (one.kept u k);
    }

no_node : (w : WireNode) (v : ℕ) → find_node w [] ≡ some v → member v [] ≡ true
unfolding find_node
no_node w v h = cc h

-- `buildOrderedGraph` fails no assertion on any list of connections between selects, and the graph
-- that it makes is valid. So `topologicalSortNoFail` returns on it: vertices, each once and each
-- behind the sources of its edges, and no further one can follow.
pub build_ordered_graph-IsValid :
    (conns : List OrderedConn)
    → (g : DirectedGraph WireNode OrderedConn) × (build_ordered_graph conns ≡ some g)
      × IsValid g
      × (order : List ℕ) × (topological_sort_no_fail g ≡ some order)
      × IsOrder g order
      × IsClosed g order
unfolding build_ordered_graph
build_ordered_graph-IsValid conns =
    let start : Building = record { graph = empty_graph; imap = [] } in
    let (nodes, ready) = add_wireables-Grows conns start empty_built in
    let edges = add_connections-Grows conns nodes.next nodes.built ready in
    let (order, sorted, is_order, closed) =
      topological_sort_no_fail-IsOrder edges.next.graph edges.built.valid in
    (
      edges.next.graph,
      ap (λ o. o >>= λ b. add_connections conns b >>= λ b'. some b'.graph) nodes.done
          ∙ ap (λ o. o >>= λ b'. some b'.graph) edges.done,
      edges.built.valid,
      order,
      sorted,
      is_order,
      closed,
    )
  where
    empty_built : IsBuilt (record { graph = empty_graph; imap = [] })
    empty_built = record { valid = empty_graph-IsValid; vertices = no_node }
