-- ===== src/Utils.antt =====
-- The parts of src/utils.
pub mod Words
pub mod Bitmap
pub mod Hash
pub mod Bloom
