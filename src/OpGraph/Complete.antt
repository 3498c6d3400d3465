-- ===== src/OpGraph/Complete.antt =====
-- `topologicalSort` and `topologicalSortNoFail`: when they return, and what.
use coreir.Base.{
  guard-true, ==→eq, ℕ, ◌≡◌, refl, ◌∙◌, sym, ap, ◌<◌, ◌≤◌, ◌+◌, zero, suc, true, some, List, [],
  ◌∷◌, ◌==◌, ◌&&◌, length, member, Bool-cases, inl, inr, arith, ◌↔◌, guard, length_snoc,
  >>=-eq-some,
}
use mathlib.Core.Path.{subst}
use coreir.Base.Once.{
  member_snoc, snoc-NoneTwice, NoneTwice, NoneTwice-length, NoneTwice-covers, precedes-place, place,
  snoc_last,
}
use coreir.OpGraph.{
  DirectedGraph, out_edges, in_edges, num_vertices, is_empty, without_incoming,
  verts_with_no_incoming_edge,
}
use coreir.OpGraph.Valid.{Joins, IsValid}
use coreir.OpGraph.Sort.{
  Progress, from_back, all_deleted, sort_rounds, topological_sort_no_fail, topological_sort,
}
use coreir.OpGraph.Kahn.{Deletes, delete_edges-Deletes}
use coreir.OpGraph.Order.{
  IsOrder, take_vertex, take_vertex-Deletes, take_vertex-IsOrder, all_deleted_all,
}

-- No vertex is left whose edges all come from the order.
abbrev pub IsClosed : {Node Edge : Type 0} → DirectedGraph Node Edge → List ℕ → Type 0
IsClosed g order =
    (v : ℕ)
    → member v g.verts ≡ true
    → ((e u : ℕ) → Joins g e u v → member u order ≡ true)
    → member v order ≡ true

Deletes-IsClosed :
    {Node Edge : Type 0} (g : DirectedGraph Node Edge) (p : Progress)
    → IsValid g
    → Deletes g [] p
    → p.stack ≡ []
    → IsClosed g p.topo_order
Deletes-IsClosed g p valid inv done v h all =
    let deleted =
      all_deleted_all p.deleted_edges (in_edges g v)
        (λ e i. let (u, j) = valid.in_ends e v i in inv.deleted e u v j refl ∙ all e u j) in
    ground (arith, inv.closed v h deleted, ap (λ s. member v s) done)

sort_rounds-IsOrder :
    {Node Edge : Type 0} (g : DirectedGraph Node Edge)
    → IsValid g
    → (fuel : ℕ) (p : Progress) (s : List ℕ) → p.stack ≡ s
    → Deletes g [] p
    → IsOrder g p.topo_order
    → num_vertices g < length p.topo_order + fuel
    → (p' : Progress) × (sort_rounds g fuel p ≡ some p')
      × IsOrder g p'.topo_order
      × IsClosed g p'.topo_order
unfolding sort_rounds
sort_rounds-IsOrder g valid zero p s e inv order enough =
    absurd (omega (arith, enough, NoneTwice-length p.topo_order g.verts order.once order.vertices))
sort_rounds-IsOrder g valid (suc k) p [] e inv order enough =
    (p, rw e refl, order, Deletes-IsClosed g p valid inv e)
sort_rounds-IsOrder g valid (suc k) p (vd ∷ rest) e inv order enough =
    let (q, done, inv', same) =
      delete_edges-Deletes g valid vd (out_edges g vd) (take_vertex g valid p vd rest e inv order)
        (valid.out_once vd) (λ x h. h) (snoc_last p.topo_order vd)
        (take_vertex-Deletes g valid p vd rest e inv order) in
    let order' = subst (IsOrder g) (sym same) (take_vertex-IsOrder g valid p vd rest e inv order) in
    let (r, done', order'', all) =
      sort_rounds-IsOrder g valid k q q.stack refl inv' order'
        (omega (arith, enough, ap length same, length_snoc p.topo_order vd)) in
    (r, rw (e, done) done', order'', all)

-- The vertices with no incoming edge.
module _ {Node Edge : Type 0} (g : DirectedGraph Node Edge) where
  member-without_incoming :
      (v : ℕ) (vs : List ℕ)
      → member v (without_incoming g vs) ≡ (member v vs && is_empty (in_edges g v))
  unfolding without_incoming
  member-without_incoming v [] = refl
  member-without_incoming v (x ∷ vs) = elim (Bool-cases (v == x)) [
    | inl here ↦
        let same = ap (λ a. is_empty (in_edges g a)) (==→eq v x here) in
        ground (arith, member-without_incoming v vs, here, same)
    | inr there ↦ ground (arith, member-without_incoming v vs, there)
  ]

  without_incoming-NoneTwice : (vs : List ℕ) → NoneTwice vs → NoneTwice (without_incoming g vs)
  unfolding without_incoming
  without_incoming-NoneTwice [] o = tt
  without_incoming-NoneTwice (x ∷ vs) (one, o) = elim (Bool-cases (is_empty (in_edges g x))) [
    | inl h ↦
        rw h (ground (arith, member-without_incoming x vs, one), without_incoming-NoneTwice vs o)
    | inr h ↦ rw h (without_incoming-NoneTwice vs o)
  ]

  member-from_back : (v : ℕ) (vs : List ℕ) → member v (from_back vs) ≡ member v vs
  unfolding from_back
  member-from_back v [] = refl
  member-from_back v (x ∷ vs) =
      ground (arith, member_snoc v (from_back vs) x, member-from_back v vs)

  from_back-NoneTwice : (vs : List ℕ) → NoneTwice vs → NoneTwice (from_back vs)
  unfolding from_back
  from_back-NoneTwice [] o = tt
  from_back-NoneTwice (x ∷ vs) (one, o) =
      snoc-NoneTwice (from_back vs) x (from_back-NoneTwice vs o) (member-from_back x vs ∙ one)

  waits :
      (v : ℕ)
      → member v (from_back (without_incoming g g.verts))
        ≡ (member v g.verts && is_empty (in_edges g v))
  waits v = member-from_back v (without_incoming g g.verts) ∙ member-without_incoming v g.verts

  abbrev at_start : Progress
  at_start = record {
    topo_order = [];
    stack = from_back (without_incoming g g.verts);
    deleted_edges = [];
  }

  all_deleted_none : (es : List ℕ) → all_deleted [] es ≡ is_empty es
  unfolding all_deleted
  all_deleted_none [] = refl
  all_deleted_none (e ∷ es) = refl

  at_start-Deletes : IsValid g → Deletes g [] at_start
  at_start-Deletes valid = record {
    deleted = λ e u t j h. refl;
    kept = λ e h. refl;
    free = λ v h. ground (arith, all_deleted_none (in_edges g v), waits v, h);
    closed = λ v h i. ground (arith, all_deleted_none (in_edges g v), waits v, h, i);
    waits_once =
        from_back-NoneTwice (without_incoming g g.verts)
          (without_incoming-NoneTwice g.verts valid.verts_once);
    apart_from = λ v h. refl;
    waits_in = λ v h. ground (arith, waits v, h);
  }

  at_start-IsOrder : IsOrder g []
  at_start-IsOrder = record {
    once = tt;
    vertices = λ v h. absurd (cc h);
    sources_first = λ e u t j h. absurd (cc h);
  }

-- On a valid graph `topologicalSortNoFail` returns. Its result has vertices, each once and each
-- behind the sources of the edges that enter it, and no further vertex can follow: one that is left
-- has an edge from one that is left.
pub topological_sort_no_fail-IsOrder :
    {Node Edge : Type 0} (g : DirectedGraph Node Edge)
    → IsValid g
    → (order : List ℕ) × (topological_sort_no_fail g ≡ some order)
      × IsOrder g order
      × IsClosed g order
unfolding topological_sort_no_fail verts_with_no_incoming_edge
topological_sort_no_fail-IsOrder g valid =
    let (p, done, order, all) =
      sort_rounds-IsOrder g valid (suc (num_vertices g)) (at_start g) (at_start g).stack refl
        (at_start-Deletes g valid) (at_start-IsOrder g) (omega arith) in
    (p.topo_order, rw done refl, order, all)

-- A rank that falls from the target of an edge to its source.
abbrev pub Falls : {Node Edge : Type 0} → DirectedGraph Node Edge → (ℕ → ℕ) → Type 0
Falls g rank = (e u t : ℕ) → Joins g e u t → rank u < rank t

covered :
    {Node Edge : Type 0} (g : DirectedGraph Node Edge) (rank : ℕ → ℕ) (order : List ℕ)
    → IsValid g
    → Falls g rank
    → IsClosed g order
    → (n v : ℕ) → rank v < n
    → member v g.verts ≡ true
    → member v order ≡ true
covered g rank order valid falls all zero v low h = absurd (omega (arith, low))
covered g rank order valid falls all (suc n) v low h = all v h (λ e u j.
    covered g rank order valid falls all n u (omega (arith, low, falls e u v j))
      (valid.from_vertex e u v j))

same_length : (a b : ℕ) → a ≤ b → b ≤ a → (a == b) ≡ true
same_length a b h k = ground (arith, h, k)

sort_of_all :
    {Node Edge : Type 0} (g : DirectedGraph Node Edge)
    → IsValid g
    → (rank : ℕ → ℕ) → Falls g rank
    → (order : List ℕ) × (topological_sort g ≡ some order)
unfolding topological_sort
sort_of_all g valid rank falls =
    let (order, done, o, all) = topological_sort_no_fail-IsOrder g valid in
    let has : (v : ℕ) → member v g.verts ≡ true → member v order ≡ true =
      λ v. covered g rank order valid falls all (suc (rank v)) v (omega arith) in
    let same =
      same_length (length order) (num_vertices g) (NoneTwice-length order g.verts o.once o.vertices)
        (NoneTwice-length g.verts order valid.verts_once has) in
    (order, rw (done, same) refl)

not_longer : (xs zs ys : List ℕ) → xs ≡ zs → (length xs == length ys) ≡ true → length ys ≤ length zs
not_longer xs zs ys e h = omega (arith, ap length e, exactly (length xs) (length ys) h)
  where
    exactly : (a b : ℕ) → (a == b) ≡ true → a ≡ b
    exactly a b e = ground arith

-- A list that `topologicalSort` returns has every vertex of a valid graph, each once and behind the
-- sources of the edges that enter it.
pub topological_sort-IsOrder :
    {Node Edge : Type 0} (g : DirectedGraph Node Edge) (order : List ℕ)
    → IsValid g
    → topological_sort g ≡ some order
    → IsOrder g order × ((v : ℕ) → member v g.verts ≡ true → member v order ≡ true)
unfolding topological_sort
topological_sort-IsOrder g order valid h =
    let (found, done, o, all) = topological_sort_no_fail-IsOrder g valid in
    let (taken, first, rest) = >>=-eq-some (topological_sort_no_fail g) _ h in
    let (u, same, result) = >>=-eq-some (guard (length taken == num_vertices g)) _ rest in
    let is_taken : taken ≡ order = cc result in
    let is_found : found ≡ order = cc (done, first, result) in
    let o' = subst (IsOrder g) is_found o in
    (
      o',
      NoneTwice-covers order g.verts o'.once o'.vertices
          (not_longer taken order g.verts is_taken (guard-true _ same)),
    )

-- On a valid graph `topologicalSort` returns exactly when there is a rank of the vertices that rises
-- along every edge, from its source to its target.
pub topological_sort_iff :
    {Node Edge : Type 0} (g : DirectedGraph Node Edge)
    → IsValid g
    → ((order : List ℕ) × (topological_sort g ≡ some order)) ↔ ((rank : ℕ → ℕ) × Falls g rank)
topological_sort_iff g valid = (
  λ (order, h).
      let (o, all) = topological_sort-IsOrder g order valid h in
      (
        λ v. place v order,
        λ e u t j.
            precedes-place u t order o.once
              (o.sources_first e u t j (all t (valid.to_vertex e u t j))),
      ),
  λ (rank, falls). sort_of_all g valid rank falls,
)
