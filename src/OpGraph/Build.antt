-- ===== src/OpGraph/Build.antt =====
-- `addEdge` and the `addVertex` functions of include/coreir/common/op_graph.h.
use coreir.Base.{
  ℕ, ◌≡◌, refl, ◌∙◌, sym, ap, ap₂, ◌<◌, suc, true, false, Option, none, some, [], ◌∷◌, ◌++◌, ◌==◌,
  member, Bool-cases, inl, inr, arith, ◌⊎◌, length_snoc,
}
use coreir.Base.Once.{snoc-NoneTwice, snoc_cases, snoc_kept}
use coreir.OpGraph.{
  DirectedGraph, out_edges, next_edge_disc, next_vertex_disc, map_insert, put_at, add_edge,
  add_vertex, add_node, get_node, empty_graph,
}
use coreir.OpGraph.Valid.{Joins, IsValid}
use coreir.OpGraph.Maps.{
  put_there, put_cases, put_kept, insert_at_free, inserted, insert_kept, insert_cases, insert_once,
}

low_not : (a b : ℕ) → a < b → (a == b) ≡ false
low_not a b h = ground arith

module _ {Node Edge : Type 0} (g : DirectedGraph Node Edge) (v : IsValid g) where
  abbrev new_vals : (s e : ℕ) → ℕ → Option (ℕ × ℕ)
  new_vals s e = put_at g.edge_vals (next_edge_disc g) (s, e)

  free_edge : g.edge_vals (next_edge_disc g) ≡ none
  free_edge = at (g.edge_vals (next_edge_disc g)) refl
    where
      at : (o : Option (ℕ × ℕ)) → g.edge_vals (next_edge_disc g) ≡ o → o ≡ none
      at none h = refl
      at (some (u, t)) h = absurd (omega (arith, v.edges_low (next_edge_disc g) u t h))

  free_out : (u : ℕ) → member (next_edge_disc g) (out_edges g u) ≡ false
  free_out u = elim (Bool-cases (member (next_edge_disc g) (out_edges g u))) [
    | inl h ↦
        let (t, j) = v.out_ends (next_edge_disc g) u h in
        absurd (omega (arith, v.edges_low (next_edge_disc g) u t j))
    | inr h ↦ h
  ]

  -- An edge that the graph has keeps its ends.
  old-Joins : (s e k u t : ℕ) → Joins g k u t → new_vals s e k ≡ some (u, t)
  old-Joins s e k u t j =
      put_kept g.edge_vals (next_edge_disc g) (s, e) k j
        (low_not k (next_edge_disc g) (v.edges_low k u t j))

  new-Joins :
      (s e k u t : ℕ)
      → new_vals s e k ≡ some (u, t)
      → ((k ≡ next_edge_disc g) × (s ≡ u) × (e ≡ t)) ⊎ Joins g k u t
  new-Joins s e k u t h = elim (put_cases g.edge_vals (next_edge_disc g) (s, e) k (u, t) h) [
    | inl (same, ends) ↦ inl (same, cc, cc)
    | inr j ↦ inr j
  ]

  new_leaves :
      (s e k u t : ℕ)
      → new_vals s e k ≡ some (u, t)
      → member k (map_insert g.adjacent_outgoing s (next_edge_disc g) u) ≡ true
  new_leaves s e k u t h = elim (new-Joins s e k u t h) [
    | inl (same, from, to) ↦
        ap₂ (λ a b. member a (map_insert g.adjacent_outgoing s (next_edge_disc g) b)) same
          (sym from)
        ∙ inserted g.adjacent_outgoing s (next_edge_disc g)
    | inr j ↦ insert_kept g.adjacent_outgoing s (next_edge_disc g) k u (v.leaves k u t j)
  ]

  new_enters :
      (s e k u t : ℕ)
      → new_vals s e k ≡ some (u, t)
      → member k (map_insert g.adjacent_incoming e (next_edge_disc g) t) ≡ true
  new_enters s e k u t h = elim (new-Joins s e k u t h) [
    | inl (same, from, to) ↦
        ap₂ (λ a b. member a (map_insert g.adjacent_incoming e (next_edge_disc g) b)) same (sym to)
        ∙ inserted g.adjacent_incoming e (next_edge_disc g)
    | inr j ↦ insert_kept g.adjacent_incoming e (next_edge_disc g) k t (v.enters k u t j)
  ]

  new_out_ends :
      (s e k u : ℕ)
      → member k (map_insert g.adjacent_outgoing s (next_edge_disc g) u) ≡ true
      → (t : ℕ) × (new_vals s e k ≡ some (u, t))
  new_out_ends s e k u h = elim (insert_cases g.adjacent_outgoing s (next_edge_disc g) k u h) [
    | inl (same, here) ↦ (
      e,
      ap (new_vals s e) same
          ∙ put_there g.edge_vals (next_edge_disc g) (s, e)
          ∙ ap (λ a. some (a, e)) (sym here),
    )
    | inr old ↦ let (t, j) = v.out_ends k u old in (t, old-Joins s e k u t j)
  ]

  new_in_ends :
      (s e k t : ℕ)
      → member k (map_insert g.adjacent_incoming e (next_edge_disc g) t) ≡ true
      → (u : ℕ) × (new_vals s e k ≡ some (u, t))
  new_in_ends s e k t h = elim (insert_cases g.adjacent_incoming e (next_edge_disc g) k t h) [
    | inl (same, here) ↦ (
      s,
      ap (new_vals s e) same
          ∙ put_there g.edge_vals (next_edge_disc g) (s, e)
          ∙ ap (λ a. some (s, a)) (sym here),
    )
    | inr old ↦ let (u, j) = v.in_ends k t old in (u, old-Joins s e k u t j)
  ]

  new_end :
      (s e k u t : ℕ)
      → member s g.verts ≡ true
      → member e g.verts ≡ true
      → new_vals s e k ≡ some (u, t)
      → (member u g.verts ≡ true) × (member t g.verts ≡ true) × (k < suc (next_edge_disc g))
  new_end s e k u t hs he h = elim (new-Joins s e k u t h) [
    | inl (same, from, to) ↦ (
      ap (λ a. member a g.verts) (sym from) ∙ hs,
      ap (λ a. member a g.verts) (sym to) ∙ he,
      omega arith,
    )
    | inr j ↦ (v.from_vertex k u t j, v.to_vertex k u t j, omega (arith, v.edges_low k u t j))
  ]

-- The graph that `add_edge` makes, with its entry put at a free number.
abbrev edge_added :
    {Node Edge : Type 0} (s e : ℕ) (g : DirectedGraph Node Edge) → DirectedGraph Node Edge
edge_added s e g = record g {
  edges = g.edges ++ next_edge_disc g ∷ [];
  edge_vals = put_at g.edge_vals (next_edge_disc g) (s, e);
  adjacent_outgoing = map_insert g.adjacent_outgoing s (next_edge_disc g);
  adjacent_incoming = map_insert g.adjacent_incoming e (next_edge_disc g);
}

edge_added-IsValid :
    {Node Edge : Type 0} (s e : ℕ) (g : DirectedGraph Node Edge)
    → IsValid g
    → member s g.verts ≡ true
    → member e g.verts ≡ true
    → IsValid (edge_added s e g)
edge_added-IsValid s e g v hs he = record {
  leaves = new_leaves g v s e;
  enters = new_enters g v s e;
  out_ends = new_out_ends g v s e;
  in_ends = new_in_ends g v s e;
  out_once =
      λ u. insert_once g.adjacent_outgoing s (next_edge_disc g) u (v.out_once u) (free_out g v u);
  from_vertex = λ k u t j. (new_end g v s e k u t hs he j).0;
  to_vertex = λ k u t j. (new_end g v s e k u t hs he j).1;
  verts_once = v.verts_once;
  verts_low = v.verts_low;
  edges_low = λ k u t j.
      omega (arith, (new_end g v s e k u t hs he j).2, length_snoc g.edges (next_edge_disc g));
}

add_edge_added :
    {Node Edge : Type 0} (s e : ℕ) (g : DirectedGraph Node Edge)
    → IsValid g
    → add_edge s e g ≡ (next_edge_disc g, edge_added s e g)
unfolding add_edge
add_edge_added s e g v =
    ap (λ m. (next_edge_disc g, record (edge_added s e g) { edge_vals = m }))
      (insert_at_free g.edge_vals (next_edge_disc g) (s, e) (free_edge g v))

fresh_vertex :
    {Node Edge : Type 0} (g : DirectedGraph Node Edge)
    → IsValid g
    → member (next_vertex_disc g) g.verts ≡ false
fresh_vertex g v = elim (Bool-cases (member (next_vertex_disc g) g.verts)) [
  | inl h ↦ absurd (omega (arith, v.verts_low (next_vertex_disc g) h))
  | inr h ↦ h
]

abbrev vertex_added :
    {Node Edge : Type 0} → DirectedGraph Node Edge → (ℕ → Option Node) → DirectedGraph Node Edge
vertex_added g names = record g { verts = g.verts ++ next_vertex_disc g ∷ []; vert_names = names }

vertex_added-IsValid :
    {Node Edge : Type 0} (g : DirectedGraph Node Edge) (names : ℕ → Option Node)
    → IsValid g
    → IsValid (vertex_added g names)
vertex_added-IsValid g names v = record {
  leaves = v.leaves;
  enters = v.enters;
  out_ends = v.out_ends;
  in_ends = v.in_ends;
  out_once = v.out_once;
  from_vertex = λ e u t j. snoc_kept u g.verts (next_vertex_disc g) (v.from_vertex e u t j);
  to_vertex = λ e u t j. snoc_kept t g.verts (next_vertex_disc g) (v.to_vertex e u t j);
  verts_once = snoc-NoneTwice g.verts (next_vertex_disc g) v.verts_once (fresh_vertex g v);
  verts_low = λ x h. elim (snoc_cases x g.verts (next_vertex_disc g) h) [
    | inl old ↦ omega (arith, v.verts_low x old, length_snoc g.verts (next_vertex_disc g))
    | inr new ↦ omega (arith, new, length_snoc g.verts (next_vertex_disc g))
  ];
  edges_low = v.edges_low;
}

-- On a valid graph, `add_edge` between two vertices leaves a valid graph, the number that it returns
-- is an edge between them that was free, and every other edge keeps its ends.
pub add_edge-IsValid :
    {Node Edge : Type 0} (s e : ℕ) (g : DirectedGraph Node Edge)
    → IsValid g
    → member s g.verts ≡ true
    → member e g.verts ≡ true
    → IsValid (add_edge s e g).1
      × (g.edge_vals (add_edge s e g).0 ≡ none)
      × Joins (add_edge s e g).1 (add_edge s e g).0 s e
      × ((k u t : ℕ) → Joins g k u t → Joins (add_edge s e g).1 k u t)
add_edge-IsValid s e g v hs he = rw (add_edge_added s e g v) (
  edge_added-IsValid s e g v hs he,
  free_edge g v,
  put_there g.edge_vals (next_edge_disc g) (s, e),
  old-Joins g v s e,
)

-- On a valid graph, each `addVertex` that chooses the number of its vertex returns a number that no
-- vertex has and leaves a valid graph, in which the vertex has the given node, if any.
pub add_node-IsValid :
    {Node Edge : Type 0} (w : Node) (g : DirectedGraph Node Edge)
    → IsValid g
    → ((member (add_node w g).0 g.verts ≡ false)
        × IsValid (add_node w g).1
        × (get_node (add_node w g).1 (add_node w g).0 ≡ some w))
      × ((member (add_vertex g).0 g.verts ≡ false) × IsValid (add_vertex g).1)
unfolding add_node add_vertex
add_node-IsValid w g v = (
  (
    fresh_vertex g v,
    vertex_added-IsValid g (put_at g.vert_names (next_vertex_disc g) w) v,
    put_there g.vert_names (next_vertex_disc g) w,
  ),
  (fresh_vertex g v, vertex_added-IsValid g g.vert_names v),
)

-- An empty graph is valid.
pub empty_graph-IsValid : {Node Edge : Type 0} → IsValid {Node = Node} {Edge = Edge} empty_graph
empty_graph-IsValid = record {
  leaves = λ e u t j. cc;
  enters = λ e u t j. cc;
  out_ends = λ e u h. cc;
  in_ends = λ e t h. cc;
  out_once = λ u. tt;
  from_vertex = λ e u t j. cc;
  to_vertex = λ e u t j. cc;
  verts_once = tt;
  verts_low = λ x h. cc;
  edges_low = λ e u t j. cc;
}
