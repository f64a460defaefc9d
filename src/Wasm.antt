-- ===== src/Wasm.antt =====
-- The parts of src/wasm.
pub mod Regions
