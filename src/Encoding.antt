-- ===== src/Encoding.antt =====
-- src/storage/encoding: integer columns in compressed form.
pub mod RunLength
pub mod FrameOfReference
