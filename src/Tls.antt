-- ===== src/Tls.antt =====
-- thread-local-storage/tls.c: the same per-thread work on thread-local variables and on variables
-- that are passed by pointer.
pub mod Work
pub mod Same
pub mod Closed
pub mod Options
