-- ===== src/Storage.antt =====
-- The parts of src/storage that are no encoding.
pub mod BTree
