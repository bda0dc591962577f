-- ===== src/Str.antt =====
-- The string functions of src/str.
pub mod Bm
