-- ===== src/Tests.antt =====
-- Concrete inputs, and the theorems at them.
mod Machine
mod Predicates
mod Pruning
mod Encoding
mod Parallel
mod Wasm
mod Execution
mod Parser
mod Pipelines
mod Analyze
mod Utils
mod SetOp
mod BTree
mod IndexSelection
