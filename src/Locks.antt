-- ===== src/Locks.antt =====
-- locks/: threads that increment shared counters, under a lock or by fetch-and-add.
pub mod Counter
pub mod Exclusion
pub mod FetchAdd
pub mod ManyLock
