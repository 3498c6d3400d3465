-- ===== src/Simulator/Settled.antt =====
-- Settled vertices: `updateNodeValues` of src/simulator/interpret.cpp would write what is there.
use coreir.Base.{
  ℕ, ◌≡◌, refl, sym, ap, ◌∙◌, Bool, true, not, ◌&&◌, some, List, [], ◌∷◌, ◌++◌, ◌>>=◌, member,
  arith,
}
use coreir.Base.Once.{member-append}
use coreir.BitVec.{QuadValueBitVector}
use coreir.Simulator.State.{
  Select, port, element, address, sim_bits, CircuitState, get_value, get_bit_vec, to_sim_bit_vector,
}
use coreir.Simulator.Vertices.{
  Vertex, graph_input, graph_output, operation, constant_or_term, register_source,
  register_receiver, memory_source, memory_receiver, Conns, Operation, unary, binary, mux, compute,
}
use coreir.Simulator.Frame.{Keeps, touches, destinations, all_writes}

-- The wire whose entry `getValue` reads.
abbrev pub reads : Select → ℕ
reads (port a) = a
reads (element a parent index arr_len) = reads parent

abbrev pub footprint : Conns → List ℕ
footprint [] = []
footprint ((source, dest) ∷ conns) = address dest ∷ reads source ∷ footprint conns

abbrev pub arg_reads : Operation → List ℕ
arg_reads (unary op arg) = reads arg ∷ []
arg_reads (binary op in0 in1) = reads in0 ∷ reads in1 ∷ []
arg_reads (mux in0 in1 selected) = reads in0 ∷ reads in1 ∷ reads selected ∷ []

abbrev pub disjoint : List ℕ → List ℕ → Bool
disjoint [] ys = true
disjoint (x ∷ xs) ys = not (member x ys) && disjoint xs ys

-- The sources of a vertex are not among its own destinations, and no wire is driven twice.
abbrev pub well_connected : Conns → Bool
well_connected [] = true
well_connected ((source, dest) ∷ conns) =
    disjoint (reads source ∷ []) (touches dest)
    && (disjoint (address dest ∷ reads source ∷ []) (destinations conns) && well_connected conns)

-- The wires that a vertex is about.
abbrev pub concerns : Vertex → List ℕ
concerns (graph_output conns) = footprint conns
concerns (operation op conns out) = address out ∷ (footprint conns ++ arg_reads op)
concerns _ = []

abbrev pub well_placed : Vertex → Bool
well_placed (graph_output conns) = well_connected conns
well_placed (operation op conns out) =
    well_connected conns && disjoint (footprint conns ++ arg_reads op) (touches out)
well_placed _ = true

-- No vertex writes what an earlier one has read or written.
abbrev pub is_topological : List Vertex → Bool
is_topological [] = true
is_topological (vd ∷ vds) =
    well_placed vd && (disjoint (concerns vd) (all_writes vds) && is_topological vds)

abbrev pub Connected : Conns → CircuitState → Type 0
Connected [] c = Unit {0}
Connected ((source, dest) ∷ conns) c =
    (c.val_map (address dest) ≡ get_value source c) × Connected conns c

abbrev pub IsSettled : Vertex → CircuitState → Type 0
IsSettled (graph_output conns) c = Connected conns c
IsSettled (operation op conns out) c =
    Connected conns c
    × ((res : QuadValueBitVector) × (compute op c ≡ some res)
        × (c.val_map (address out) ≡ some (sim_bits res)))
IsSettled _ c = Unit {0}

abbrev pub AllSettled : List Vertex → CircuitState → Type 0
AllSettled [] c = Unit {0}
AllSettled (vd ∷ vds) c = IsSettled vd c × AllSettled vds c

-- Two states that have the same values at the given wires.
abbrev pub Agree : List ℕ → CircuitState → CircuitState → Type 0
Agree xs c c' = (b : ℕ) → member b xs ≡ true → Keeps b c c'

Agree-tail : (x : ℕ) (xs : List ℕ) (c c' : CircuitState) → Agree (x ∷ xs) c c' → Agree xs c c'
Agree-tail x xs c c' h b i = h b (ground (arith, i))

pub Agree-left : (xs ys : List ℕ) (c c' : CircuitState) → Agree (xs ++ ys) c c' → Agree xs c c'
Agree-left xs ys c c' h b i = h b (ground (arith, member-append b xs ys, i))

pub Agree-right : (xs ys : List ℕ) (c c' : CircuitState) → Agree (xs ++ ys) c c' → Agree ys c c'
Agree-right xs ys c c' h b i = h b (ground (arith, member-append b xs ys, i))

pub get_value-Agree :
    (s : Select) (c c' : CircuitState) → Keeps (reads s) c c' → get_value s c' ≡ get_value s c
unfolding get_value
get_value-Agree (port a) c c' h = h
get_value-Agree (element a parent index arr_len) c c' h = rw (get_value-Agree parent c c' h) refl

pub get_bit_vec-Agree :
    (s : Select) (c c' : CircuitState) → Keeps (reads s) c c' → get_bit_vec s c' ≡ get_bit_vec s c
unfolding get_bit_vec
get_bit_vec-Agree s c c' h = ap (λ o. o >>= to_sim_bit_vector) (get_value-Agree s c c' h)

pub compute-Agree :
    (op : Operation) (c c' : CircuitState)
    → Agree (arg_reads op) c c'
    → compute op c' ≡ compute op c
unfolding compute
compute-Agree (unary op arg) c c' h =
    rw (get_bit_vec-Agree arg c c' (h (reads arg) (ground arith))) refl
compute-Agree (binary op in0 in1) c c' h =
    rw
      (
        get_bit_vec-Agree in0 c c' (h (reads in0) (ground arith)),
        get_bit_vec-Agree in1 c c' (h (reads in1) (ground arith)),
      )
      refl
compute-Agree (mux in0 in1 selected) c c' h =
    rw
      (
        get_bit_vec-Agree in0 c c' (h (reads in0) (ground arith)),
        get_bit_vec-Agree in1 c c' (h (reads in1) (ground arith)),
        get_bit_vec-Agree selected c c' (h (reads selected) (ground arith)),
      )
      refl

pub Connected-Agree :
    (conns : Conns) (c c' : CircuitState)
    → Agree (footprint conns) c c'
    → Connected conns c
    → Connected conns c'
Connected-Agree [] c c' h s = tt
Connected-Agree ((source, dest) ∷ conns) c c' h (one, s) = (
  h (address dest) (ground arith)
      ∙ one
      ∙ sym (get_value-Agree source c c' (h (reads source) (ground arith))),
  Connected-Agree conns c c'
      (Agree-tail (reads source) (footprint conns) c c'
        (Agree-tail (address dest) (reads source ∷ footprint conns) c c' h))
      s,
)

pub IsSettled-Agree :
    (vd : Vertex) (c c' : CircuitState)
    → Agree (concerns vd) c c'
    → IsSettled vd c
    → IsSettled vd c'
IsSettled-Agree (graph_output conns) c c' h s = Connected-Agree conns c c' h s
IsSettled-Agree (operation op conns out) c c' h (s, (res, done, there)) =
    let both = Agree-tail (address out) (footprint conns ++ arg_reads op) c c' h in
    (
      Connected-Agree conns c c' (Agree-left (footprint conns) (arg_reads op) c c' both) s,
      (
        res,
        compute-Agree op c c' (Agree-right (footprint conns) (arg_reads op) c c' both) ∙ done,
        h (address out) (ground arith) ∙ there,
      ),
    )
IsSettled-Agree (graph_input s) c c' h t = tt
IsSettled-Agree constant_or_term c c' h t = tt
IsSettled-Agree (register_source name out) c c' h t = tt
IsSettled-Agree (register_receiver name conns arg clk reset) c c' h t = tt
IsSettled-Agree (memory_source name conns raddr rdata) c c' h t = tt
IsSettled-Agree (memory_receiver name conns waddr wdata clk wen) c c' h t = tt
