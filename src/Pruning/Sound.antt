-- ===== src/Pruning/Sound.antt =====
-- The pruner of src/execution/zone-map-pruner.ts against the rows of the chunk.
pub mod Logic
pub mod Column
pub mod Comparison
pub mod Scan
pub mod Lists
pub mod Chunk
pub mod Summary
pub mod Rows
