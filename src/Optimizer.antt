-- ===== src/Optimizer.antt =====
-- src/optimizer: rewriting passes over logical plans and their predicates.
pub mod NullRejection
pub mod IndexSelection
