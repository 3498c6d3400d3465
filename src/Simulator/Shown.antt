-- ===== src/Simulator/Shown.antt =====
-- The writes of `updateNodeValues` of src/simulator/interpret.cpp, one behind the other, and the bits
-- of arrays that they leave shown.
use mathlib.Core.Path.{subst}
use coreir.Base.{
  some_eq, ◌≡◌, refl, sym, Bool, true, ◌&&◌, some, List, [], ◌∷◌, ◌++◌, >>=-eq-some, arith,
}
use coreir.Simulator.State.{
  Select, SimValue, sim_bits, CircuitState, get_value, get_bit_vec, set_sim_value,
}
use coreir.Simulator.Vertices.{
  Vertex, graph_input, graph_output, operation, constant_or_term, register_source,
  register_receiver, memory_source, memory_receiver, Conns, Operation, update_inputs, compute,
  update_operation, update_output, update_node_values, update_each,
}
use coreir.Simulator.Arrays.{Shows, flat, spares, set_sim_value-Shows, spares-Shows}

-- The selects that are written, in order.
abbrev pub dests : Conns → List Select
dests [] = []
dests ((source, dest) ∷ conns) = dest ∷ dests conns

abbrev pub targets : Vertex → List Select
targets (graph_output conns) = dests conns
targets (operation op conns out) = dests conns ++ out ∷ []
targets _ = []

abbrev pub all_targets : List Vertex → List Select
all_targets [] = []
all_targets (vd ∷ vds) = targets vd ++ all_targets vds

abbrev pub spared : List Select → Select → Bool
spared [] d = true
spared (t ∷ ts) d = spares t d && spared ts d

-- No write undoes what an earlier one has put at a bit of an array.
abbrev pub bits_apart : List Select → Bool
bits_apart [] = true
bits_apart (t ∷ ts) = flat t && (spared ts t && bits_apart ts)

abbrev pub AllShow : List Select → CircuitState → Type 0
AllShow [] c = Unit {0}
AllShow (t ∷ ts) c = Shows t c × AllShow ts c

-- `c'` is `c` behind one write at each of the selects.
abbrev Writes : List Select → CircuitState → CircuitState → Type 0
Writes [] c c' = c ≡ c'
Writes (t ∷ ts) c c' =
    (v : SimValue) × (c1 : CircuitState) × (set_sim_value t v c ≡ some c1) × Writes ts c1 c'

Writes-append :
    (ts us : List Select) (c c1 c' : CircuitState)
    → Writes ts c c1
    → Writes us c1 c'
    → Writes (ts ++ us) c c'
Writes-append [] us c c1 c' e w = subst (λ x. Writes us x c') (sym e) w
Writes-append (t ∷ ts) us c c1 c' (v, c2, put, w) w' =
    (v, c2, put, Writes-append ts us c2 c1 c' w w')

Writes-Shows :
    (ts : List Select) (d : Select) (c c' : CircuitState)
    → spared ts d ≡ true
    → Writes ts c c'
    → Shows d c
    → Shows d c'
Writes-Shows [] d c c' s e h = subst (Shows d) e h
Writes-Shows (t ∷ ts) d c c' s (v, c1, put, w) h =
    Writes-Shows ts d c1 c' (ground (arith, s)) w
      (spares-Shows t d v c c1 (ground (arith, s)) put h)

Writes-AllShow :
    (ts : List Select) (c c' : CircuitState) → bits_apart ts ≡ true → Writes ts c c' → AllShow ts c'
Writes-AllShow [] c c' a w = tt
Writes-AllShow (t ∷ ts) c c' a (v, c1, put, w) = (
  Writes-Shows ts t c1 c' (ground (arith, a)) w
      (set_sim_value-Shows t v c c1 (ground (arith, a)) put),
  Writes-AllShow ts c1 c' (ground (arith, a)) w,
)

update_inputs-Writes :
    (conns : Conns) (c c' : CircuitState)
    → update_inputs conns c ≡ some c'
    → Writes (dests conns) c c'
unfolding update_inputs
update_inputs-Writes [] c c' e = some_eq e
update_inputs-Writes ((source, dest) ∷ conns) c c' e =
    let (val, read, e1) = >>=-eq-some (get_value source c) _ e in
    let (c1, put, e2) = >>=-eq-some (set_sim_value dest val c) _ e1 in
    (val, c1, put, update_inputs-Writes conns c1 c' e2)

update_output-Writes :
    (conns : Conns) (c c' : CircuitState)
    → update_output conns c ≡ some c'
    → Writes (dests conns) c c'
unfolding update_output
update_output-Writes [] c c' e = some_eq e
update_output-Writes ((source, dest) ∷ conns) c c' e =
    let (bits, read, e1) = >>=-eq-some (get_bit_vec source c) _ e in
    let (c1, put, e2) = >>=-eq-some (set_sim_value dest (sim_bits bits) c) _ e1 in
    (sim_bits bits, c1, put, update_output-Writes conns c1 c' e2)

update_operation-Writes :
    (op : Operation) (conns : Conns) (out : Select) (c c' : CircuitState)
    → update_operation op conns out c ≡ some c'
    → Writes (dests conns ++ out ∷ []) c c'
unfolding update_operation
update_operation-Writes op conns out c c' e =
    let (c1, first, e1) = >>=-eq-some (update_inputs conns c) _ e in
    let (res, computed, e2) = >>=-eq-some (compute op c1) _ e1 in
    Writes-append (dests conns) (out ∷ []) c c1 c' (update_inputs-Writes conns c c1 first)
      (sim_bits res, c', e2, refl)

update_node_values-Writes :
    (vd : Vertex) (c c' : CircuitState)
    → update_node_values vd c ≡ some c'
    → Writes (targets vd) c c'
unfolding update_node_values
update_node_values-Writes (graph_output conns) c c' e = update_output-Writes conns c c' e
update_node_values-Writes (operation op conns out) c c' e =
    update_operation-Writes op conns out c c' e
update_node_values-Writes (graph_input s) c c' e = some_eq e
update_node_values-Writes constant_or_term c c' e = some_eq e
update_node_values-Writes (register_source name out) c c' e = some_eq e
update_node_values-Writes (register_receiver name conns arg clk reset) c c' e = some_eq e
update_node_values-Writes (memory_source name conns raddr rdata) c c' e = some_eq e
update_node_values-Writes (memory_receiver name conns waddr wdata clk wen) c c' e = some_eq e

update_each-Writes :
    (vds : List Vertex) (c c' : CircuitState)
    → update_each update_node_values vds c ≡ some c'
    → Writes (all_targets vds) c c'
unfolding update_each
update_each-Writes [] c c' e = some_eq e
update_each-Writes (vd ∷ vds) c c' e =
    let (c1, one, rest) =
      >>=-eq-some (update_node_values vd c) (update_each update_node_values vds) e in
    Writes-append (targets vd) (all_targets vds) c c1 c' (update_node_values-Writes vd c c1 one)
      (update_each-Writes vds c1 c' rest)

pub update_each-AllShow :
    (vds : List Vertex) (c c' : CircuitState)
    → bits_apart (all_targets vds) ≡ true
    → update_each update_node_values vds c ≡ some c'
    → AllShow (all_targets vds) c'
update_each-AllShow vds c c' a e =
    Writes-AllShow (all_targets vds) c c' a (update_each-Writes vds c c' e)
