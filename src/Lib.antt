-- ===== src/Lib.antt =====
-- CoreIR, an LLVM-style compiler for hardware: a model of the core of its C++ code, and the theorems
-- about it.
--
-- A hardware design is a graph of modules whose ports have types. A module's definition holds
-- instances of other modules and connects their wireables (src/ir/moduledef.cpp, src/ir/wireable.cpp);
-- passes rewrite definitions (src/passes). The types (src/ir/types.cpp) are made and paired with their
-- flips by a cache (src/ir/typecache.cpp); wireables and connections select parts of them by names
-- (src/ir/common.cpp). The interpreter (src/simulator) makes a graph of the operations of a flat
-- module (src/ir/op_graph.cpp), updates the wires in topological order and keeps the states of the
-- past. The passes, the values and the interpreter compute on bit vectors of four-valued digits (include/coreir/ir/dynamic_bit_vector.h).
--
-- Which file models which part:
--   Base, and its children: numbers, tests, options, lists and counted loops.
--   Quad: class `quad_value`, a digit that is 0, 1, unknown or of high impedance.
--   BitVec: class `quad_value_bit_vector`. The constructors and accessors are in BitVec.antt, the
--     bitwise operators and reductions in BitVec/Logic.antt, `add_general_width_bv`,
--     `sub_general_width_bv`, `mul_general_width_bv` and `negate_general_width_bv` in
--     BitVec/Arith.antt, the order in BitVec/Compare.antt, `lshr`, `ashr`, `shl`, `concat`, `slice`
--     and the extensions in BitVec/Shift.antt, `unsigned_divide` in BitVec/Divide.antt, and the
--     hexadecimal texts in BitVec/Hex.antt. BitVec/Words.antt is the abstract view: the vector
--     `word w x` of width w with the binary digits of x.
--   Names: `isNumber`, `isSlice`, `parseSlice`, `isPower2` and `checkStringSyntax` of
--     src/ir/common.cpp.
--   Types: the classes of include/coreir/ir/types.h as a tree, with `getDir`, `getSize`, `hasInput`
--     and the flip; Types/Select.antt has `sel`, `canSel` and the shape tests,
--     and Types/Record.antt the constructor of a record, `appendField` and `detachField`.
--     Types/Equal.antt compares types; the code compares addresses.
--   Wiring: the connections of a definition, with `connect`, `disconnect` and the metadata of
--     src/ir/moduledef.cpp, and the sets of connected wireables of src/ir/wireable.cpp.
--     Wiring/Invariant.antt has the invariant.
--   Wireable: the selects of src/ir/wireable.cpp, with `sel`, `removeSel`, `disconnectAll`,
--     `getAllSelects` and `getLocalConnections`.
--   Iter: `appendInstanceToIter`, `removeInstanceFromIter` and `getInstancesIterNext` of
--     src/ir/moduledef.cpp; a list of instances is the abstract view.
--   ModuleDef: class `ModuleDef`, which holds the three parts above, with `addInstance`, `sel` and
--     `removeInstance` of src/ir/moduledef.cpp and `validate` of src/ir/moduledef_validate.cpp.
--     ModuleDef/Reach.antt has the steps that a program takes with a definition.
--   Values: the values of include/coreir/ir/value.h and their types, with `mergeValues`,
--     `checkValuesAreParams`, `doValuesMatchParams` and `checkValuesAreConst` of src/ir/common.cpp.
--   InstanceGraph: class `InstanceGraph` of src/ir/instancegraph.cpp.
--   Directed: class `DirectedConnection` of src/ir/directedview.cpp.
--   WiringUtils: `getReceiverConnections` and `getSourceConnections` of src/ir/wiring_utils.cpp.
--   Passes: the passes of src/passes; Passes/DeadInstances.antt is
--     src/passes/transform/deletedeadinstances.cpp, and Passes/Unconnected.antt
--     src/passes/transform/removeunconnected.cpp.
--   Algorithm: the helpers on vectors of include/coreir/common/algorithm.h.
--   OpGraph: class `DirectedGraph` of include/coreir/common/op_graph.h, with `topologicalSort` and
--     `topologicalSortNoFail` of src/ir/op_graph.cpp in OpGraph/Sort.antt, and with
--     `buildOrderedGraph` and class `WireNode` of include/coreir/common/wire_node.h in
--     OpGraph/Netlist.antt, from the list that `buildOrderedConnections` returns and from an empty
--     graph.
--   Simulator: the interpreter of src/simulator/interpret.cpp and
--     include/coreir/simulator/interpreter.h. Simulator/Operations.antt has what
--     `updateNodeValues` computes, Simulator/Memory.antt class `SimMemory`, Simulator/State.antt
--     class `CircuitState` with `getValue` and `setValue`, Simulator/Vertices.antt the updates of the
--     vertices, `exeCombinational` and `exeSequential`, and Simulator/History.antt class
--     `SimulatorState` with `execute`, `runHalfCycle`, `rewind`, `run` and `runBack`.
--     Simulator/Defaults.antt has the first state, which `initializeState` fills.
--
-- How the code corresponds. An operation that can fail an assertion, throw or run out of bounds
-- returns an Option, and `none` is each of these: the code is read as built with its assertions.
-- Vectors are changed in place in the source, and handed on here. A loop that counts is `for_up`
-- or `for_down`, or a recursion on the rounds that are left. The two loops of Algorithm.antt without
-- a counter, `split_loop` and `chain_loop`, get one round for each element, and each round passes at
-- least one.
-- The widths and indices of a vector are of type `int` and stay far below its limit; they are not
-- wrapped. An `int` that becomes a vector is given by its 32-bit pattern, and the size of a type is
-- kept modulo 2 ^ 32. The shift amounts are those that `get_shift_int` admits: vectors of at most 64
-- digits. Texts are lists of bytes. Of std::stoi the model has what the code reaches behind its
-- tests: digits, a leading 0 for octal numbers, and failure above the largest `int`.
-- A type is its tree; that the cache makes equal trees the same object is not modelled.
-- A wireable is its address, a number that is not 0, with the tree of its selects; 0 is the null
-- pointer. The addresses that the allocator will give are an argument. A `std::set` of connections is
-- a list without repetitions, and its order, which is that of addresses, decides nothing here. The
-- functions that give the type of an address, and whether it is of this definition, are parameters.
-- Of an error the model counts that it happened; the messages are left out, and so are the contents
-- of metadata. The program dies at the limit of errors: `none`. The loop of `deleteDeadInstances`
-- gets one round more than there are instances, and each round but the last removes one. The fuel of
-- `sort_visit` is for the depth of the graph of modules: a fuel above the rank of every module is
-- enough. The arguments of an instance are checked when it is made, and not kept.
-- Of the interpreter's values only clocks are changed in place and shared between states: a clock is
-- its place in the list of clocks that were allocated. A vertex of the circuit stands with what is
-- used of its instance, and names of instances are numbers. `topologicalSortNoFail` gets one round
-- more than there are vertices, which is enough for a valid graph. The rounds of `run` and `runBack`
-- are fuel, since they need not end.
--
-- Not modelled: selects with `;` into the definition of an instance; the set of the modules below the
-- top module; the comparison of values and their cache; generators and namespaces; the other passes;
-- of the interpreter the making of the circuit from a module, combinational loops, operations on
-- floats, plugins and the symbol table; the generators of simulation code; files and text output.
pub mod Algorithm
pub mod Base
pub mod BitVec
pub mod Directed
pub mod InstanceGraph
pub mod Iter
pub mod ModuleDef
pub mod Names
pub mod OpGraph
pub mod Passes
pub mod Quad
pub mod Simulator
pub mod Types
pub mod Values
pub mod Wireable
pub mod Wiring
pub mod WiringUtils
