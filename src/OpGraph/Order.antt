-- ===== src/OpGraph/Order.antt =====
-- The order that `topologicalSortNoFail` returns.
use coreir.Base.{
  ==→eq, ℕ, ◌≡◌, refl, ◌∙◌, sym, ap, true, false, List, [], ◌∷◌, ◌++◌, ◌==◌, member, Bool-cases,
  inl, inr, arith,
}
use mathlib.Core.Path.{subst}
use coreir.Base.Once.{
  NoneTwice, precedes, precedes_snoc, precedes_kept, apart, member_snoc, snoc-NoneTwice, snoc_cases,
}
use coreir.OpGraph.{DirectedGraph, out_edges, in_edges}
use coreir.OpGraph.Valid.{Joins, IsValid}
use coreir.OpGraph.Sort.{Progress, all_deleted}
use coreir.OpGraph.Kahn.{reached, Deletes, all_deleted-member}

-- Vertices, each once, each behind the vertices that its edges come from.
pub record IsOrder {Node Edge : Type 0} (g : DirectedGraph Node Edge) (order : List ℕ)
    : Type 0 where
  pub once : NoneTwice order
  pub vertices : (v : ℕ) → member v order ≡ true → member v g.verts ≡ true
  pub sources_first :
      (e u t : ℕ) → Joins g e u t → member t order ≡ true → precedes u t order ≡ true

pub all_deleted_all :
    (d es : List ℕ) → ((e : ℕ) → member e es ≡ true → member e d ≡ true) → all_deleted d es ≡ true
unfolding all_deleted
all_deleted_all d [] h = refl
all_deleted_all d (e ∷ es) h =
    rw (h e (ground arith)) (all_deleted_all d es (λ x i. h x (ground (arith, i))))

-- Taking the vertex `vd` off the stack.
module _ {Node Edge : Type 0} (g : DirectedGraph Node Edge) (valid : IsValid g) (p : Progress)
    (vd : ℕ) (rest : List ℕ) (stacked : p.stack ≡ vd ∷ rest) (inv : Deletes g [] p)
    (order : IsOrder g p.topo_order) where
  abbrev pub take_vertex : Progress
  take_vertex = record p { topo_order = p.topo_order ++ vd ∷ []; stack = rest }

  in_stack : member vd p.stack ≡ true
  in_stack = rw stacked (ground arith)

  untaken : member vd p.topo_order ≡ false
  untaken = inv.apart_from vd in_stack

  rest_stack : (v : ℕ) → member v rest ≡ true → member v p.stack ≡ true
  rest_stack v h = rw stacked (ground (arith, h))

  reached_same : (v : ℕ) → reached v take_vertex ≡ reached v p
  reached_same v = ground (arith, member_snoc v p.topo_order vd, ap (λ s. member v s) stacked)

  rest_once : (member vd rest ≡ false) × NoneTwice rest
  rest_once = subst NoneTwice stacked inv.waits_once

  pub take_vertex-Deletes : Deletes g (out_edges g vd) take_vertex
  take_vertex-Deletes = record {
    deleted = λ e u t j h. elim (Bool-cases (u == vd)) [
      | inl here ↦
          let gone = valid.leaves e u t j in
          let there = ap (λ a. member e (out_edges g a)) (==→eq u vd here) in
          absurd (ground (arith, gone, there, h))
      | inr there ↦ inv.deleted e u t j refl ∙ ground (arith, member_snoc u p.topo_order vd, there)
    ];
    kept = λ e h. let (t, j) = valid.out_ends e vd h in inv.deleted e vd t j refl ∙ untaken;
    free = λ v h. inv.free v (sym (reached_same v) ∙ h);
    closed = λ v h i. reached_same v ∙ inv.closed v h i;
    waits_once = rest_once.1;
    apart_from = λ v h.
        let off = apart v vd rest rest_once.0 h in
        ground (arith, member_snoc v p.topo_order vd, off, inv.apart_from v (rest_stack v h));
    waits_in = λ v h. inv.waits_in v (rest_stack v h);
  }

  -- The edges into `vd` are deleted, so they come from vertices that were taken.
  sources_taken : (e u : ℕ) → Joins g e u vd → member u p.topo_order ≡ true
  sources_taken e u j =
      let all = inv.free vd (ground (arith, in_stack)) in
      sym (inv.deleted e u vd j refl)
      ∙ all_deleted-member p.deleted_edges (in_edges g vd) e all (valid.enters e u vd j)

  pub take_vertex-IsOrder : IsOrder g (p.topo_order ++ vd ∷ [])
  take_vertex-IsOrder = record {
    once = snoc-NoneTwice p.topo_order vd order.once untaken;
    vertices = λ v h. elim (snoc_cases v p.topo_order vd h) [
      | inl old ↦ order.vertices v old
      | inr new ↦ ap (λ a. member a g.verts) new ∙ inv.waits_in vd in_stack
    ];
    sources_first = λ e u t j h. elim (snoc_cases t p.topo_order vd h) [
      | inl old ↦ precedes_kept u t p.topo_order vd (order.sources_first e u t j old)
      | inr new ↦
          subst (λ a. precedes u a (p.topo_order ++ vd ∷ []) ≡ true) (sym new)
            (precedes_snoc u vd p.topo_order (sources_taken e u (subst (λ a. Joins g e u a) new j)))
    ];
  }
