-- ===== src/Passes.antt =====
-- Transformation passes of src/passes/transform.
pub mod DeadInstances
pub mod Unconnected
