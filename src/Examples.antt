-- ===== src/Examples.antt =====
-- Concrete runs: the inputs at which the theorems of the other files are applied, and tests.
pub mod Simple
pub mod Locals
pub mod Content
pub mod Divergence
pub mod DsQueue
pub mod Tls
pub mod Ispc
pub mod Locks
pub mod Bench
pub mod SharedMemory
pub mod Gpu
pub mod HugeAlloc
pub mod Rows
pub mod Masstree
pub mod Udp
pub mod RawEth
pub mod Ioat
pub mod IoatMain
pub mod Timely
use systemish.Base.{ℕ, ◌+◌, ◌*◌, some, Host}

-- A host on which every call succeeds.
abbrev pub host : Host
host = record { sid = 7; segment = some (λ i. 0); heap = some (λ i. i); rand = λ n. n * n + 5 }
