-- ===== src/Sock/Unix.antt =====
-- src/sock/unix.c: sockets of the Unix domain, on Linux.
pub mod Cred
pub mod Open
pub mod Rights
