-- ===== src/Gpu.antt =====
-- gpu/: the programs that run a kernel on the graphics processor beside a thread of the host.
pub mod Mapped
pub mod Handshake
pub mod Progress
pub mod RandMem
pub mod Interleaved
