-- ===== src/Ioat/Setup.antt =====
-- The channels and the workers of ioat/bench.cc: how they are found, associated and given back.
use systemish.Base.{
  ℕ, zero, suc, ◌+◌, ◌==◌, leb, not, if◌then◌else◌, Bool, true, false, List, [], ◌∷◌, ◌++◌, Option,
  some, none, minus_one, length,
}
use systemish.Ioat.{Chan, new_chan}

-- The devices that are attached, as their channels, and `g_ioat_chan_num`.
pub record Devices : Type 0 where
  pub g_devices : List ℕ
  pub g_ioat_chan_num : ℕ

-- `attach_cb` for a channel, where `dev` says whether `spdk_dma_zmalloc` returns memory.
unfoldable pub attach_cb : ℕ → ℕ → Bool → Devices → Devices
attach_cb limit ioat dev s =
    if leb limit s.g_ioat_chan_num
    then s
    else (if dev
        then record {
          g_devices = s.g_devices ++ ioat ∷ [];
          g_ioat_chan_num = s.g_ioat_chan_num + 1;
        }
        else s)

-- The calls that `spdk_ioat_probe` makes, for the channels that it finds.
unfoldable pub probe : ℕ → List (ℕ × Bool) → Devices → Devices
unfolding attach_cb
probe limit [] s = s
probe limit ((ioat, dev) ∷ found) s = probe limit found (attach_cb limit ioat dev s)

abbrev pub no_devices : Devices
no_devices = record { g_devices = []; g_ioat_chan_num = 0 }

-- `struct ioat_chan_entry` with its channel
pub record Entry : Type 0 where
  pub chan : ℕ
  pub ioat_chan_id : ℕ
  pub state : Chan

-- `struct worker_thread`
pub record Worker : Type 0 where
  pub core : ℕ
  pub ctx : List Entry

-- `register_workers` for the cores, with whether `calloc` returns memory: the list of workers, and
-- whether it is complete.
unfoldable pub register_workers : List (ℕ × Bool) → List Worker → List Worker × Bool
register_workers [] workers = (workers, true)
register_workers ((core, memory) ∷ cores) workers =
    let rest = register_workers cores (record { core = core; ctx = [] } ∷ workers) in
    if memory then rest else (workers, false)

-- What a turn of the loop of `associate_workers_with_chan` gets: whether `calloc` returns memory,
-- and the elements of the two pools.
pub record Supply : Type 0 where
  pub memory : Bool
  pub data_pool : Option (List ℕ)
  pub task_pool : Option (List ℕ)

-- The worker that stands at `at` gets one more entry.
unfoldable pub give : ℕ → Entry → List Worker → List Worker
give at t [] = []
give zero t (w ∷ ws) = record w { ctx = t ∷ w.ctx } ∷ ws
give (suc at) t (w ∷ ws) = w ∷ give at t ws

-- `worker = worker->next`, or the first one again.
unfoldable pub next_worker : ℕ → List Worker → ℕ
next_worker at ws = if suc at == length ws then 0 else suc at

-- How `associate_workers_with_chan` ends: the value that it returns, and the workers.
pub record Associated : Type 0 where
  pub rc : ℕ
  pub workers : List Worker

-- The loop for the channels of the devices that are left, with the position of `worker` and `i`;
-- `supply` is what each turn gets. There is a worker, since there is a core; a turn that fails
-- gives its own pools back.
unfoldable pub associate : (ℕ → Supply) → List ℕ → ℕ → ℕ → List Worker → Associated
unfolding give next_worker new_chan
associate supply [] at i ws = record { rc = 0; workers = ws }
associate supply (chan ∷ rest) at i ws =
    let s = supply i in
    if not s.memory then record { rc = minus_one; workers = ws } else elim s.data_pool [
      | none ↦ record { rc = 1; workers = ws }
      | some elements ↦ elim s.task_pool [
        | none ↦ record { rc = 1; workers = ws }
        | some tasks ↦
            associate supply rest (next_worker at ws) (suc i) (
              give at (record { chan = chan; ioat_chan_id = i; state = new_chan elements tasks })
                ws)
      ]
    ]

-- `associate_workers_with_chan`, with `g_next_device` at the first device.
unfoldable pub associate_workers_with_chan : (ℕ → Supply) → List ℕ → List Worker → Associated
unfolding associate
associate_workers_with_chan supply devices ws = associate supply devices 0 0 ws

-- What the cleanup gives back.
pub data Freed : Type 0 where
  pools : ℕ → Freed  -- of the entry with this channel, and the entry
  worker : ℕ → Freed  -- on this core
  detached : ℕ → Freed  -- the channel of a device

unfoldable pub free_entries : List Entry → List Freed
free_entries [] = []
free_entries (t ∷ ts) = pools t.chan ∷ free_entries ts

unfoldable pub unregister_workers : List Worker → List Freed
unfolding free_entries
unregister_workers [] = []
unregister_workers (w ∷ ws) = free_entries w.ctx ++ worker w.core ∷ unregister_workers ws

unfoldable pub ioat_exit : List ℕ → List Freed
ioat_exit [] = []
ioat_exit (ioat ∷ rest) = detached ioat ∷ ioat_exit rest
