-- ===== src/OpGraph/Built.antt =====
-- The nodes that `addWireableToGraph` of src/ir/op_graph.cpp puts into the graph and into `imap`.
use coreir.Base.{
  ℕ, ◌≡◌, refl, sym, ap, ◌∙◌, Bool, true, false, Option, none, some, ◌∷◌, ◌>>=◌, ◌>>◌, guard,
  Bool-cases, inl, inr, member, arith, some_eq,
}
use coreir.Base.Once.{snoc_last, snoc_kept}
use coreir.Names.{Name, name_eq}
use coreir.OpGraph.{DirectedGraph, add_node, next_vertex_disc}
use coreir.OpGraph.Valid.{IsValid}
use coreir.OpGraph.Build.{add_node-IsValid}
use coreir.OpGraph.Netlist.{
  combinational, clocked, memory, Wire, instance_wire, interface_wire, select_wire, WireNode,
  comb_node, receiver_node, output_node, same_flag, same_node, is_op_node, extract_source,
  OrderedConn, Building, find_node, ensure_node, add_wireable_to_graph, raddr, source_node,
  sink_node,
}

abbrev pub Known : WireNode → Building → Type 0
Known w b = (v : ℕ) × (find_node w b.imap ≡ some v)

-- The graph is valid, and the map of nodes leads to its vertices.
pub record IsBuilt (b : Building) : Type 0 where
  pub valid : IsValid b.graph
  pub vertices :
      (w : WireNode) (v : ℕ) → find_node w b.imap ≡ some v → member v b.graph.verts ≡ true

-- A step that returns, keeps this, and forgets no node.
pub record Grows (b : Building) (m : Option Building) : Type 0 where
  pub next : Building
  pub done : m ≡ some next
  pub built : IsBuilt next
  pub kept : (w : WireNode) → Known w b → Known w next

same_node_self : (w : WireNode) → same_node w w ≡ true
same_node_self w = ground (arith, same w.is_sequential, same w.is_receiver)
  where
    same : (a : Bool) → same_flag a a ≡ true
    same true = refl
    same false = refl

abbrev with_node : WireNode → Building → Building
with_node w b = record {
  graph = (add_node w b.graph).1;
  imap = (w, next_vertex_disc b.graph) ∷ b.imap;
}

add_node_last :
    (w : WireNode) (g : DirectedGraph WireNode OrderedConn)
    → member (next_vertex_disc g) (add_node w g).1.verts ≡ true
unfolding add_node
add_node_last w g = snoc_last g.verts (next_vertex_disc g)

add_node_kept :
    (w : WireNode) (g : DirectedGraph WireNode OrderedConn) (v : ℕ)
    → member v g.verts ≡ true
    → member v (add_node w g).1.verts ≡ true
unfolding add_node
add_node_kept w g v h = snoc_kept v g.verts (next_vertex_disc g) h

with_node-vertices :
    (w : WireNode) (b : Building)
    → IsBuilt b
    → (u : WireNode) (v : ℕ) → find_node u (with_node w b).imap ≡ some v
    → member v (with_node w b).graph.verts ≡ true
unfolding find_node
with_node-vertices w b built u v h = elim (Bool-cases (same_node u w)) [
  | inl new ↦
      ap (λ x. member x (with_node w b).graph.verts) (sym (some_eq (rw new at h)))
      ∙ add_node_last w b.graph
  | inr old ↦ add_node_kept w b.graph v (built.vertices u v (rw old at h))
]

with_node-kept : (w : WireNode) (b : Building) (u : WireNode) → Known u b → Known u (with_node w b)
unfolding find_node
with_node-kept w b u (v, h) = elim (Bool-cases (same_node u w)) [
  | inl new ↦ (next_vertex_disc b.graph, rw new refl)
  | inr old ↦ (v, rw old h)
]

with_node-Known : (w : WireNode) (b : Building) → Known w (with_node w b)
unfolding find_node
with_node-Known w b = (next_vertex_disc b.graph, rw (same_node_self w) refl)

abbrev by_found : WireNode → Building → Option ℕ → Option Building
by_found w b o = elim o [
  | some v ↦ some b
  | none ↦ is_op_node w.wire >>= λ op. guard op >> some (with_node w b)
]

ensure_known :
    (w : WireNode) (b : Building) (v : ℕ) → find_node w b.imap ≡ some v → ensure_node w b ≡ some b
unfolding ensure_node
ensure_known w b v h = ap (by_found w b) h

ensure_new :
    (w : WireNode) (b : Building)
    → find_node w b.imap ≡ none
    → is_op_node w.wire ≡ some true
    → ensure_node w b ≡ some (with_node w b)
unfolding ensure_node add_node
ensure_new w b h op = ap (by_found w b) h ∙ ap (λ o. o >>= λ t. guard t >> some (with_node w b)) op

ensure_node-Grows :
    (w : WireNode) (b : Building)
    → IsBuilt b
    → is_op_node w.wire ≡ some true
    → (grown : Grows b (ensure_node w b)) × Known w grown.next
ensure_node-Grows w b built op = by_map (find_node w b.imap) refl
  where
    by_map :
        (o : Option ℕ)
        → find_node w b.imap ≡ o
        → (grown : Grows b (ensure_node w b)) × Known w grown.next
    by_map (some v) h =
        (record { next = b; done = ensure_known w b v h; built = built; kept = λ u k. k }, (v, h))
    by_map none h = (
      record {
        next = with_node w b;
        done = ensure_new w b h op;
        built = record {
          valid = (add_node-IsValid w b.graph built.valid).0.1;
          vertices = with_node-vertices w b built;
        };
        kept = with_node-kept w b;
      },
      with_node-Known w b,
    )

-- The nodes that the connections of a wireable look for.
abbrev pub IsReady : Wire → Building → Type 0
IsReady (instance_wire a combinational) b = Known (comb_node (instance_wire a combinational)) b
IsReady (instance_wire a clocked) b =
    Known (output_node (instance_wire a clocked)) b
    × Known (receiver_node (instance_wire a clocked)) b
IsReady (instance_wire a memory) b =
    Known (output_node (instance_wire a memory)) b
    × Known (receiver_node (instance_wire a memory)) b
IsReady (interface_wire a) b = Known (comb_node (interface_wire a)) b
IsReady (select_wire a s p) b = Known (comb_node (select_wire a s p)) b

pub IsReady-kept :
    (w : Wire) (b c : Building)
    → ((u : WireNode) → Known u b → Known u c)
    → IsReady w b
    → IsReady w c
IsReady-kept (instance_wire a combinational) b c kept k = kept _ k
IsReady-kept (instance_wire a clocked) b c kept (k, l) = (kept _ k, kept _ l)
IsReady-kept (instance_wire a memory) b c kept (k, l) = (kept _ k, kept _ l)
IsReady-kept (interface_wire a) b c kept k = kept _ k
IsReady-kept (select_wire a s p) b c kept k = kept _ k

both-Grows :
    (w u : WireNode) (b : Building)
    → IsBuilt b
    → is_op_node w.wire ≡ some true
    → is_op_node u.wire ≡ some true
    → (grown : Grows b (ensure_node w b >>= ensure_node u)) × Known w grown.next
      × Known u grown.next
both-Grows w u b built op op' =
    let (first, known) = ensure_node-Grows w b built op in
    let (second, known') = ensure_node-Grows u first.next first.built op' in
    (
      record {
        next = second.next;
        done = ap (λ o. o >>= ensure_node u) first.done ∙ second.done;
        built = second.built;
        kept = λ x k. second.kept x (first.kept x k);
      },
      second.kept w known,
      known',
    )

pub add_wireable_to_graph-Grows :
    (w : Wire) (b : Building)
    → IsBuilt b
    → is_op_node w ≡ some true
    → (grown : Grows b (add_wireable_to_graph w b)) × IsReady w grown.next
unfolding add_wireable_to_graph
add_wireable_to_graph-Grows (instance_wire a combinational) b built op =
    ensure_node-Grows (comb_node (instance_wire a combinational)) b built op
add_wireable_to_graph-Grows (instance_wire a clocked) b built op =
    let (g, k, l) =
      both-Grows (output_node (instance_wire a clocked)) (receiver_node (instance_wire a clocked)) b
        built op op in
    (g, (k, l))
add_wireable_to_graph-Grows (instance_wire a memory) b built op =
    let (g, k, l) =
      both-Grows (output_node (instance_wire a memory)) (receiver_node (instance_wire a memory)) b
        built op op in
    (g, (k, l))
add_wireable_to_graph-Grows (interface_wire a) b built op = cc op
add_wireable_to_graph-Grows (select_wire a s p) b built op =
    ensure_node-Grows (comb_node (select_wire a s p)) b built op

pub extract_source_op :
    (a : ℕ) (s : Name) (p : Wire) → is_op_node (extract_source a s p) ≡ some true
unfolding extract_source
extract_source_op a s (interface_wire b) = refl
extract_source_op a s (instance_wire b k) = refl
extract_source_op a s (select_wire b t p) = extract_source_op b t p

pub source-Known : (w : Wire) (b : Building) → IsReady w b → Known (source_node w) b
source-Known (instance_wire a combinational) b k = k
source-Known (instance_wire a clocked) b (k, l) = k
source-Known (instance_wire a memory) b (k, l) = k
source-Known (interface_wire a) b k = k
source-Known (select_wire a s p) b k = k

pub sink-Known : (s : Name) (w : Wire) (b : Building) → IsReady w b → Known (sink_node s w) b
sink-Known s (instance_wire a combinational) b k = k
sink-Known s (instance_wire a clocked) b (k, l) = l
sink-Known s (instance_wire a memory) b (k, l) = elim (Bool-cases (name_eq s raddr)) [
  | inl h ↦ rw h k
  | inr h ↦ rw h l
]
sink-Known s (interface_wire a) b k = k
sink-Known s (select_wire a t p) b k = k
