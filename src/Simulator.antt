-- ===== src/Simulator.antt =====
-- The interpreter of circuits: src/simulator/interpret.cpp and include/coreir/simulator/interpreter.h.
mod Tests
pub mod Operations
pub mod Memory
pub mod State
pub mod Vertices
pub mod History
pub mod Defaults
pub mod Rounds
pub mod Bounds
pub mod Timeline
pub mod Frame
pub mod Kept
pub mod Past
pub mod Settled
pub mod Arrays
pub mod Shown
pub mod Pass
pub mod Watch
