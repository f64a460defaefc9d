-- ===== src/Execution.antt =====
-- The parts of src/execution that run the operators.
pub mod Columns
pub mod Filter
pub mod Pipelines
pub mod SetOp
