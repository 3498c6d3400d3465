-- ===== src/OpGraph.antt =====
-- The graph of a circuit's operations: class `DirectedGraph` of include/coreir/common/op_graph.h,
-- and the sorts of src/ir/op_graph.cpp. A vertex and an edge are numbers, as in the code.
pub mod Sort
pub mod Netlist
pub mod Built
pub mod Ordered
pub mod Valid
pub mod Maps
pub mod Build
pub mod Kahn
pub mod Order
pub mod Complete
mod Tests
use coreir.Base.{
  ℕ, Bool, true, false, not, Option, none, some, List, [], ◌∷◌, ◌++◌, ◌>>=◌, ◌>>◌, guard, ◌==◌,
  if◌then◌else◌, length, member,
}

-- A vector for each vertex; a missing key has the empty one.
abbrev pub Adjacent : Type 0
Adjacent = ℕ → List ℕ

-- `map_insert`
unfoldable pub map_insert : Adjacent → (at ed : ℕ) → Adjacent
map_insert adj at ed v = if v == at then adj v ++ ed ∷ [] else adj v

module _ {A : Type 0} where
  -- `m[key] = value`
  unfoldable pub put_at : (ℕ → Option A) → ℕ → A → ℕ → Option A
  put_at m key value k = if k == key then some value else m k

  abbrev pub is_there : Option A → Bool
  is_there none = false
  is_there (some a) = true

  -- `std::map::insert` keeps an entry that is there.
  unfoldable pub insert_at : (ℕ → Option A) → ℕ → A → ℕ → Option A
  unfolding put_at
  insert_at m key value = if is_there (m key) then m else put_at m key value

abbrev pub is_empty : List ℕ → Bool
is_empty [] = true
is_empty (x ∷ xs) = false

pub record DirectedGraph (Node Edge : Type 0) : Type 0 where
  pub edges : List ℕ
  pub verts : List ℕ
  pub adjacent_incoming : Adjacent
  pub adjacent_outgoing : Adjacent
  pub edge_vals : ℕ → Option (ℕ × ℕ)
  pub edge_names : ℕ → Option Edge
  pub vert_names : ℕ → Option Node

module _ {Node Edge : Type 0} where
  abbrev pub empty_graph : DirectedGraph Node Edge
  empty_graph = record {
    edges = [];
    verts = [];
    adjacent_incoming = λ v. [];
    adjacent_outgoing = λ v. [];
    edge_vals = λ e. none;
    edge_names = λ e. none;
    vert_names = λ v. none;
  }

  abbrev pub num_vertices : DirectedGraph Node Edge → ℕ
  num_vertices g = length g.verts

  abbrev pub next_edge_disc : DirectedGraph Node Edge → ℕ
  next_edge_disc g = length g.edges

  abbrev pub next_vertex_disc : DirectedGraph Node Edge → ℕ
  next_vertex_disc g = length g.verts

  abbrev pub get_node : DirectedGraph Node Edge → ℕ → Option Node
  get_node g vd = g.vert_names vd

  abbrev pub get_conn : DirectedGraph Node Edge → ℕ → Option Edge
  get_conn g ed = g.edge_names ed

  abbrev pub has_label : DirectedGraph Node Edge → ℕ → Bool
  has_label g ed = is_there (g.edge_names ed)

  -- Both assert that the edge is there.
  unfoldable pub source : DirectedGraph Node Edge → ℕ → Option ℕ
  source g ed = g.edge_vals ed >>= λ ends. some ends.0

  unfoldable pub target : DirectedGraph Node Edge → ℕ → Option ℕ
  target g ed = g.edge_vals ed >>= λ ends. some ends.1

  abbrev pub out_edges : DirectedGraph Node Edge → ℕ → List ℕ
  out_edges g vd = g.adjacent_outgoing vd

  abbrev pub in_edges : DirectedGraph Node Edge → ℕ → List ℕ
  in_edges g vd = g.adjacent_incoming vd

  -- `addEdge`: the edge, and the graph with it.
  unfoldable pub add_edge : (s e : ℕ) → DirectedGraph Node Edge → ℕ × DirectedGraph Node Edge
  unfolding map_insert insert_at
  add_edge s e g =
      let ed = next_edge_disc g in
      (
        ed,
        record g {
          edges = g.edges ++ ed ∷ [];
          edge_vals = insert_at g.edge_vals ed (s, e);
          adjacent_outgoing = map_insert g.adjacent_outgoing s ed;
          adjacent_incoming = map_insert g.adjacent_incoming e ed;
        },
      )

  -- `addVertex(const Node&)`
  unfoldable pub add_node : Node → DirectedGraph Node Edge → ℕ × DirectedGraph Node Edge
  unfolding put_at
  add_node w g =
      let v = next_vertex_disc g in
      (v, record g { verts = g.verts ++ v ∷ []; vert_names = put_at g.vert_names v w })

  -- `addVertex(vdisc)`
  unfoldable pub add_given : ℕ → DirectedGraph Node Edge → Option (DirectedGraph Node Edge)
  add_given v g = do guard (not (member v g.verts)); some (record g { verts = g.verts ++ v ∷ [] })

  -- `addVertex()`
  unfoldable pub add_vertex : DirectedGraph Node Edge → ℕ × DirectedGraph Node Edge
  add_vertex g = let v = next_vertex_disc g in (v, record g { verts = g.verts ++ v ∷ [] })

  unfoldable pub add_vert_label : ℕ → Node → DirectedGraph Node Edge → DirectedGraph Node Edge
  unfolding put_at
  add_vert_label vd wd g = record g { vert_names = put_at g.vert_names vd wd }

  unfoldable pub add_edge_label : ℕ → Edge → DirectedGraph Node Edge → DirectedGraph Node Edge
  unfolding put_at
  add_edge_label ed conn g = record g { edge_names = put_at g.edge_names ed conn }

  -- `connected`, over the edges that leave `vd`.
  unfoldable pub reaches_one : DirectedGraph Node Edge → List ℕ → (dest : ℕ) → Option Bool
  unfolding target
  reaches_one g [] dest = some false
  reaches_one g (ed ∷ eds) dest = do
    t ← target g ed
    elim (t == dest) [ true ↦ some true | false ↦ reaches_one g eds dest ]

  unfoldable pub connected : DirectedGraph Node Edge → (from dest : ℕ) → Option Bool
  unfolding reaches_one
  connected g from dest = reaches_one g (out_edges g from) dest

  unfoldable pub without_incoming : DirectedGraph Node Edge → List ℕ → List ℕ
  without_incoming g [] = []
  without_incoming g (v ∷ vs) =
      let rest = without_incoming g vs in if is_empty (in_edges g v) then v ∷ rest else rest

  unfoldable pub verts_with_no_incoming_edge : DirectedGraph Node Edge → List ℕ
  unfolding without_incoming
  verts_with_no_incoming_edge g = without_incoming g g.verts
