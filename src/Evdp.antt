-- ===== src/Evdp.antt =====
-- The event dispatcher, src/evdp: sources, the queue that they are attached to, and its driver.
pub mod Ids
pub mod Source
pub mod Queue
pub mod Timespec
pub mod Timer
pub mod Uring
