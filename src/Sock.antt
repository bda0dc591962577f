-- ===== src/Sock.antt =====
-- The parts of src/sock that are modelled.
pub mod Csum
pub mod Common
pub mod Descriptors
pub mod Opened
pub mod Raw
pub mod Unix
mod Tests
