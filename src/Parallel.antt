-- ===== src/Parallel.antt =====
-- The parts of src/parallel.
pub mod Morsels
