-- ===== src/OpGraph/Sort.antt =====
-- `topologicalSortNoFail` and `topologicalSort` of src/ir/op_graph.cpp and of
-- include/coreir/common/op_graph.h.
use coreir.Base.{
  ℕ, zero, suc, Bool, true, ◌&&◌, Option, none, some, List, [], ◌∷◌, ◌++◌, ◌>>=◌, ◌>>◌, guard, ◌==◌,
  if◌then◌else◌, length, member,
}
use coreir.OpGraph.{
  DirectedGraph, source, target, out_edges, in_edges, num_vertices, verts_with_no_incoming_edge,
}

-- The locals of the sort; the back of the vector `s` is the head of `stack`.
pub record Progress : Type 0 where
  pub topo_order : List ℕ
  pub stack : List ℕ
  pub deleted_edges : List ℕ

-- The vertices of a vector, from its back.
unfoldable pub from_back : List ℕ → List ℕ
from_back [] = []
from_back (vd ∷ s) = from_back s ++ vd ∷ []

-- `noOtherEdges`
unfoldable pub all_deleted : (deleted_edges : List ℕ) → List ℕ → Bool
all_deleted deleted_edges [] = true
all_deleted deleted_edges (in_ed ∷ eds) =
    member in_ed deleted_edges && all_deleted deleted_edges eds

module _ {Node Edge : Type 0} (g : DirectedGraph Node Edge) where
  unfoldable pub delete_edge : (vd ed : ℕ) → Progress → Option Progress
  unfolding source target all_deleted
  delete_edge vd ed p = do
    src ← source g ed
    dest ← target g ed
    guard (src == vd)
    let deleted = ed ∷ p.deleted_edges
    some (record p {
      stack = if all_deleted deleted (in_edges g dest) then dest ∷ p.stack else p.stack;
      deleted_edges = deleted;
    })

  unfoldable pub delete_edges : (vd : ℕ) → List ℕ → Progress → Option Progress
  unfolding delete_edge
  delete_edges vd [] p = some p
  delete_edges vd (ed ∷ eds) p = delete_edge vd ed p >>= delete_edges vd eds

  -- The `while` loop, on fuel for its rounds.
  unfoldable pub sort_rounds : (fuel : ℕ) → Progress → Option Progress
  unfolding delete_edges
  sort_rounds zero p = none
  sort_rounds (suc k) p = elim p.stack [
    | [] ↦ some p
    | vd ∷ rest ↦ do
      p' ←
          delete_edges vd (out_edges g vd)
            (record p { topo_order = p.topo_order ++ vd ∷ []; stack = rest })
      sort_rounds k p'
  ]

  -- One round more than there are vertices.
  unfoldable pub topological_sort_no_fail : Option (List ℕ)
  unfolding sort_rounds from_back verts_with_no_incoming_edge
  topological_sort_no_fail = do
    p ← sort_rounds (suc (num_vertices g)) (record {
      topo_order = [];
      stack = from_back (verts_with_no_incoming_edge g);
      deleted_edges = [];
    })
    some p.topo_order

  unfoldable pub topological_sort : Option (List ℕ)
  unfolding topological_sort_no_fail
  topological_sort = do
    topo_order ← topological_sort_no_fail
    guard (length topo_order == num_vertices g)
    some topo_order
