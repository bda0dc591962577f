-- ===== src/File.antt =====
-- The file helpers of src/file.
pub mod Copy
