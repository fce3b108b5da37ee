-- ===== src/Bench.antt =====
-- Small benchmark programs: cpu-hog/, prefetch/, bench/ and memory-capacity/.
pub mod CpuHog
pub mod Prefetch
pub mod Buffers
pub mod Checksums
pub mod Capacity
