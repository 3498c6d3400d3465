-- ===== src/OpGraph/Kahn.antt =====
-- The loops of `topologicalSortNoFail` of src/ir/op_graph.cpp over the edges that leave one vertex.
use coreir.Base.{
  ==→eq, ℕ, ◌≡◌, refl, ◌∙◌, sym, ap, Bool, true, false, some, List, [], ◌∷◌, ◌==◌, ◌||◌, member,
  Bool-cases, inl, inr, arith,
}
use coreir.Base.Once.{NoneTwice, apart}
use coreir.OpGraph.{DirectedGraph, source, target, out_edges, in_edges}
use coreir.OpGraph.Valid.{Joins, IsValid}
use coreir.OpGraph.Sort.{Progress, all_deleted, delete_edge, delete_edges}

pub all_deleted_more :
    (d : List ℕ) (ed : ℕ) (es : List ℕ) → all_deleted d es ≡ true → all_deleted (ed ∷ d) es ≡ true
unfolding all_deleted
all_deleted_more d ed [] h = refl
all_deleted_more d ed (e ∷ es) h = ground (arith, all_deleted_more d ed es, h)

-- An edge that is not among those asked for changes nothing.
pub all_deleted_other :
    (d : List ℕ) (ed : ℕ) (es : List ℕ)
    → member ed es ≡ false
    → all_deleted (ed ∷ d) es ≡ all_deleted d es
unfolding all_deleted
all_deleted_other d ed [] h = refl
all_deleted_other d ed (e ∷ es) h = ground (arith, all_deleted_other d ed es, h)

pub all_deleted-member :
    (d es : List ℕ) (e : ℕ) → all_deleted d es ≡ true → member e es ≡ true → member e d ≡ true
unfolding all_deleted
all_deleted-member d (x ∷ es) e h i = elim (Bool-cases (e == x)) [
  | inl here ↦ ap (λ (t : ℕ). member t d) (==→eq e x here) ∙ ground (arith, h)
  | inr there ↦ all_deleted-member d es e (ground (arith, h)) (ground (arith, i, there))
]
all_deleted-member d [] e h i = cc

-- Whether a vertex is taken, or waits for its turn.
abbrev pub reached : ℕ → Progress → Bool
reached v p = member v p.topo_order || member v p.stack

-- `left` are the edges of the last vertex that are still to be deleted.
pub record Deletes {Node Edge : Type 0} (g : DirectedGraph Node Edge) (left : List ℕ) (p : Progress)
    : Type 0 where
  pub deleted :
      (e u t : ℕ)
      → Joins g e u t
      → member e left ≡ false
      → member e p.deleted_edges ≡ member u p.topo_order
  pub kept : (e : ℕ) → member e left ≡ true → member e p.deleted_edges ≡ false
  pub free : (v : ℕ) → reached v p ≡ true → all_deleted p.deleted_edges (in_edges g v) ≡ true
  pub closed :
      (v : ℕ)
      → member v g.verts ≡ true
      → all_deleted p.deleted_edges (in_edges g v) ≡ true
      → reached v p ≡ true
  pub waits_once : NoneTwice p.stack
  pub apart_from : (v : ℕ) → member v p.stack ≡ true → member v p.topo_order ≡ false
  pub waits_in : (v : ℕ) → member v p.stack ≡ true → member v g.verts ≡ true

-- One edge, `ed`, which goes from the taken vertex `vd` to `t`.
module _ {Node Edge : Type 0} (g : DirectedGraph Node Edge) (valid : IsValid g) (p : Progress)
    (left : List ℕ) (ed vd t : ℕ) (inv : Deletes g (ed ∷ left) p) (joins : Joins g ed vd t)
    (taken : member vd p.topo_order ≡ true) (other : member ed left ≡ false) where
  abbrev deleted_with : List ℕ
  deleted_with = ed ∷ p.deleted_edges

  unreached : reached t p ≡ false
  unreached = elim (Bool-cases (reached t p)) [
    | inr h ↦ h
    | inl h ↦
        let gone =
          all_deleted-member p.deleted_edges (in_edges g t) ed (inv.free t h)
            (valid.enters ed vd t joins) in
        let still = inv.kept ed (ground arith) in absurd (ground (arith, gone, still))
  ]

  Joins-same : (u s : ℕ) → Joins g ed u s → (vd ≡ u) × (t ≡ s)
  Joins-same u s j = (cc (joins, j), cc (joins, j))

  deleted_after :
      (e u s : ℕ)
      → Joins g e u s
      → member e left ≡ false
      → member e deleted_with ≡ member u p.topo_order
  deleted_after e u s j h = elim (Bool-cases (e == ed)) [
    | inl here ↦
        let (same, to) = Joins-same u s (ap g.edge_vals (sym (==→eq e ed here)) ∙ j) in
        rw here (sym (ap (λ a. member a p.topo_order) (sym same) ∙ taken))
    | inr there ↦ rw there (inv.deleted e u s j (rw there h))
  ]

  kept_after : (e : ℕ) → member e left ≡ true → member e deleted_with ≡ false
  kept_after e h = rw (apart e ed left other h) (inv.kept e (ground (arith, h)))

  not_into : (v : ℕ) → (v == t) ≡ false → member ed (in_edges g v) ≡ false
  not_into v h = elim (Bool-cases (member ed (in_edges g v))) [
    | inr i ↦ i
    | inl i ↦
        let (u, j) = valid.in_ends ed v i in
        let (from, to) = Joins-same u v j in absurd (ground (arith, to, h))
  ]

  closed_after :
      (v : ℕ)
      → (v == t) ≡ false
      → member v g.verts ≡ true
      → all_deleted deleted_with (in_edges g v) ≡ true
      → reached v p ≡ true
  closed_after v h i all =
      inv.closed v i
        (sym (all_deleted_other p.deleted_edges ed (in_edges g v) (not_into v h)) ∙ all)

  abbrev pushed : Progress
  pushed = record p { stack = t ∷ p.stack; deleted_edges = deleted_with }

  abbrev unpushed : Progress
  unpushed = record p { deleted_edges = deleted_with }

  pushed-Deletes : all_deleted deleted_with (in_edges g t) ≡ true → Deletes g left pushed
  pushed-Deletes all = record {
    deleted = deleted_after;
    kept = kept_after;
    free = λ v h. elim (Bool-cases (v == t)) [
      | inl here ↦ ap (λ a. all_deleted deleted_with (in_edges g a)) (==→eq v t here) ∙ all
      | inr there ↦
          all_deleted_more p.deleted_edges ed (in_edges g v) (inv.free v (ground (arith, h, there)))
    ];
    closed = λ v h i. elim (Bool-cases (v == t)) [
      | inl here ↦ ground (arith, here)
      | inr there ↦ ground (arith, closed_after v there h i)
    ];
    waits_once = (ground (arith, unreached), inv.waits_once);
    apart_from = λ v h. elim (Bool-cases (v == t)) [
      | inl here ↦ ap (λ a. member a p.topo_order) (==→eq v t here) ∙ ground (arith, unreached)
      | inr there ↦ inv.apart_from v (ground (arith, h, there))
    ];
    waits_in = λ v h. elim (Bool-cases (v == t)) [
      | inl here ↦ ap (λ a. member a g.verts) (==→eq v t here) ∙ valid.to_vertex ed vd t joins
      | inr there ↦ inv.waits_in v (ground (arith, h, there))
    ];
  }

  unpushed-Deletes : all_deleted deleted_with (in_edges g t) ≡ false → Deletes g left unpushed
  unpushed-Deletes some_left = record {
    deleted = deleted_after;
    kept = kept_after;
    free = λ v h. all_deleted_more p.deleted_edges ed (in_edges g v) (inv.free v h);
    closed = λ v h i. elim (Bool-cases (v == t)) [
      | inl here ↦
          let here_too = ap (λ a. all_deleted deleted_with (in_edges g a)) (==→eq v t here) in
          absurd (ground (arith, i, some_left, here_too))
      | inr there ↦ closed_after v there h i
    ];
    waits_once = inv.waits_once;
    apart_from = inv.apart_from;
    waits_in = inv.waits_in;
  }

  pub delete_edge-Deletes :
      (p' : Progress) × (delete_edge g vd ed p ≡ some p')
      × Deletes g left p'
      × (p'.topo_order ≡ p.topo_order)
  unfolding delete_edge source target
  delete_edge-Deletes = elim (Bool-cases (all_deleted deleted_with (in_edges g t))) [
    | inl all ↦ (pushed, rw (joins, all, same vd) refl, pushed-Deletes all, refl)
    | inr some_left ↦
        (unpushed, rw (joins, some_left, same vd) refl, unpushed-Deletes some_left, refl)
  ]
    where
      same : (x : ℕ) → (x == x) ≡ true
      same x = ground arith

pub delete_edges-Deletes :
    {Node Edge : Type 0} (g : DirectedGraph Node Edge)
    → IsValid g
    → (vd : ℕ) (left : List ℕ) (p : Progress) → NoneTwice left
    → ((e : ℕ) → member e left ≡ true → member e (out_edges g vd) ≡ true)
    → member vd p.topo_order ≡ true
    → Deletes g left p
    → (p' : Progress) × (delete_edges g vd left p ≡ some p')
      × Deletes g [] p'
      × (p'.topo_order ≡ p.topo_order)
unfolding delete_edges
delete_edges-Deletes g valid vd [] p once sub taken inv = (p, refl, inv, refl)
delete_edges-Deletes g valid vd (ed ∷ left) p (one, once) sub taken inv =
    let (t, joins) = valid.out_ends ed vd (sub ed (ground arith)) in
    let (p', done, inv', same) = delete_edge-Deletes g valid p left ed vd t inv joins taken one in
    let (q, done', inv'', same') =
      delete_edges-Deletes g valid vd left p' once (λ e h. sub e (ground (arith, h)))
        (ap (λ ns. member vd ns) same ∙ taken) inv' in
    (q, rw done done', inv'', same' ∙ same)
