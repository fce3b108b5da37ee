-- ===== src/Gpu/Mapped.antt =====
-- gpu/mtMappedMemory/mtMappedMemory.cu, with `waitForNonZero` of common.cu: a thread of the host
-- and the threads of a kernel that exchange packets over memory mapped into both. Each access of
-- the shared arrays is a step of its own, and the steps interleave in any order.
use systemish.Base.{ℕ, suc, ◌+◌, ◌%◌, ◌<◌, ◌≡◌, ◌≢◌, update, sub32, mul32, minus_one}

abbrev pub num_pkts : ℕ
num_pkts = 32

abbrev pub iters : ℕ
iters = 1000

-- `h_A`, `h_B` and the one cell of `h_flag` that is used
pub record Shared : Type 0 where
  pub a : ℕ → ℕ
  pub b : ℕ → ℕ
  pub flag : ℕ

-- Where `gpu_run` stands in an iteration: its loops with their index, and its ends.
pub data Cpu : Type 0 where
  clearing : ℕ → ℕ → Cpu  -- `memset` of `h_B`
  filling : ℕ → ℕ → Cpu  -- the loop that writes `h_A`
  awaiting : ℕ → ℕ → Cpu  -- a turn of `waitForNonZero`
  checking : ℕ → ℕ → Cpu  -- the loop that compares
  returned : Cpu
  mismatch : Cpu  -- `exit(-1)`

-- A thread of `vectorAdd` in an iteration; at `polling iters` its loop is over.
pub data Lane : Type 0 where
  polling : ℕ → Lane
  reading : ℕ → Lane
  writing : ℕ → ℕ → Lane  -- with the value that was read

-- `(iter & 0xff) + j + 1`
unfoldable pub packet : ℕ → ℕ → ℕ
packet iter j = iter % 256 + j + 1

-- A step of the host: from a memory and a place to a memory and a place.
pub data HostStep (m : Shared) : Cpu → Shared → Cpu → Type 0 where
  clear :
      {iter j : ℕ}
      → j < num_pkts
      → HostStep m (clearing iter j) (record m { b = update m.b j 0 }) (clearing iter (suc j))
  cleared : {iter : ℕ} → HostStep m (clearing iter num_pkts) m (filling iter 0)
  put :
      {iter j : ℕ}
      → j < num_pkts
      → HostStep m
          (filling iter j)
          (record m { a = update m.a j (packet iter j) })
          (filling iter (suc j))
  raise :
      {iter : ℕ} → HostStep m (filling iter num_pkts) (record m { flag = iter }) (awaiting iter 0)
  non_zero :
      {iter i : ℕ}
      → i < num_pkts
      → m.b i ≢ 0
      → HostStep m (awaiting iter i) m (awaiting iter (suc i))
  zero_at :
      {iter i : ℕ} → i < num_pkts → m.b i ≡ 0 → HostStep m (awaiting iter i) m (awaiting iter 0)
  all_non_zero : {iter : ℕ} → HostStep m (awaiting iter num_pkts) m (checking iter 0)
  equal :
      {iter j : ℕ}
      → j < num_pkts
      → m.b j ≡ mul32 (m.a j) 2
      → HostStep m (checking iter j) m (checking iter (suc j))
  differ :
      {iter j : ℕ}
      → j < num_pkts
      → m.b j ≢ mul32 (m.a j) 2
      → HostStep m (checking iter j) m mismatch
  next :
      {iter : ℕ} → suc iter < iters → HostStep m (checking iter num_pkts) m (clearing (suc iter) 0)
  last : {iter : ℕ} → suc iter ≡ iters → HostStep m (checking iter num_pkts) m returned

-- A step of thread `i` of the kernel.
pub data KernelStep (i : ℕ) (m : Shared) : Lane → Shared → Lane → Type 0 where
  spin :
      {iter : ℕ}
      → iter < iters
      → m.flag ≡ sub32 iter 1
      → KernelStep i m (polling iter) m (polling iter)
  raised :
      {iter : ℕ}
      → iter < iters
      → m.flag ≢ sub32 iter 1
      → KernelStep i m (polling iter) m (reading iter)
  fetch : {iter : ℕ} → KernelStep i m (reading iter) m (writing iter (m.a i))
  store :
      {iter v : ℕ}
      → KernelStep i m
          (writing iter v)
          (record m { b = update m.b i (mul32 v 2) })
          (polling (suc iter))

pub record World : Type 0 where
  pub shared : Shared
  pub cpu : Cpu
  pub lanes : ℕ → Lane

-- Only the threads below `N` of the kernel enter the loop.
pub data Step (s : World) : World → Type 0 where
  host :
      {m : Shared} {p : Cpu}
      → HostStep s.shared s.cpu m p
      → Step s (record { shared = m; cpu = p; lanes = s.lanes })
  kernel :
      (i : ℕ) {m : Shared} {l : Lane}
      → i < num_pkts
      → KernelStep i s.shared (s.lanes i) m l
      → Step s (record { shared = m; cpu = s.cpu; lanes = update s.lanes i l })

-- `main` has cleared the packets, set the flag, and started the thread and the kernel.
abbrev pub main_world : World
main_world = record {
  shared = record { a = λ j. 0; b = λ j. 0; flag = minus_one };
  cpu = clearing 0 0;
  lanes = λ i. polling 0;
}

-- The steps from one state to another, and the states of the program.
pub data Steps (s : World) : World → Type 0 where
  none_yet : Steps s s
  then_one : {t u : World} → Steps s t → Step t u → Steps s u

abbrev pub Reachable : World → Type 0
Reachable = Steps main_world
