-- ===== src/OpGraph/Valid.antt =====
-- Well-formed graphs of class `DirectedGraph` of include/coreir/common/op_graph.h.
use coreir.Base.{ℕ, ◌≡◌, ◌<◌, true, some, member}
use coreir.Base.Once.{NoneTwice}
use coreir.OpGraph.{DirectedGraph, out_edges, in_edges, next_edge_disc, next_vertex_disc}

module _ {Node Edge : Type 0} (g : DirectedGraph Node Edge) where
  -- The edge `e` goes from `u` to `t`.
  abbrev pub Joins : (e u t : ℕ) → Type 0
  Joins e u t = g.edge_vals e ≡ some (u, t)

-- The two maps of edges are the edges with these ends, each edge once; the ends are vertices; and
-- the numbers that the next edge and the next vertex will have are free.
pub record IsValid {Node Edge : Type 0} (g : DirectedGraph Node Edge) : Type 0 where
  pub leaves : (e u t : ℕ) → Joins g e u t → member e (out_edges g u) ≡ true
  pub enters : (e u t : ℕ) → Joins g e u t → member e (in_edges g t) ≡ true
  pub out_ends : (e u : ℕ) → member e (out_edges g u) ≡ true → (t : ℕ) × Joins g e u t
  pub in_ends : (e t : ℕ) → member e (in_edges g t) ≡ true → (u : ℕ) × Joins g e u t
  pub out_once : (u : ℕ) → NoneTwice (out_edges g u)
  pub from_vertex : (e u t : ℕ) → Joins g e u t → member u g.verts ≡ true
  pub to_vertex : (e u t : ℕ) → Joins g e u t → member t g.verts ≡ true
  pub verts_once : NoneTwice g.verts
  pub verts_low : (v : ℕ) → member v g.verts ≡ true → v < next_vertex_disc g
  pub edges_low : (e u t : ℕ) → Joins g e u t → e < next_edge_disc g
