-- ===== src/Ispc.antt =====
-- ispc-test/: lookups in a large array, one at a time, in batches, and by pointer chasing.
pub mod Lookups
pub mod Batches
pub mod Chase
