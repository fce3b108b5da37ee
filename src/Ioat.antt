-- ===== src/Ioat.antt =====
-- ioat/bench.cc: a benchmark that keeps a number of copies in flight on each channel of a DMA
-- engine. A channel is modelled with its entry, its pools and the copies that the engine works on.
-- Pools are lists of addresses, in the order in which they are handed out. What the engine does in
-- one call of `spdk_ioat_process_events` is an argument: for each copy that it finishes, the oldest
-- first, what `memcmp` would say of it.
pub mod Pools
pub mod Drain
pub mod Run
pub mod Config
pub mod Setup
pub mod Balance
pub mod Cleanup
pub mod Main
pub mod Worker
pub mod Drains
pub mod Totals
use systemish.Base.{
  ℕ, zero, suc, ◌+◌, ◌-◌, ◌*◌, ◌%◌, ◌^◌, ◌==◌, if◌then◌else◌, ◌&&◌, Bool, true, false, List, [],
  ◌∷◌, ◌++◌, update, Option, some, none, is_empty, ltb,
}

-- `struct ioat_task`, less the pointer to its channel
pub record Task : Type 0 where
  pub src : ℕ
  pub dst : ℕ

-- `struct ioat_chan_entry`, the memory of the tasks, and the tasks in flight, the oldest first.
pub record Chan : Type 0 where
  pub xfer_completed : ℕ
  pub xfer_failed : ℕ
  pub current_queue_depth : ℕ
  pub is_draining : Bool
  pub data_pool : List ℕ
  pub task_pool : List ℕ
  pub tasks : ℕ → Task
  pub flight : List ℕ

-- The number of elements in each pool.
abbrev pub pool_size : ℕ
pool_size = 512

-- `spdk_mempool_get`: a null pointer if the pool is empty.
abbrev pub get : List ℕ → ℕ
get [] = 0
get (x ∷ rest) = x

abbrev pub left : List ℕ → List ℕ
left [] = []
left (x ∷ rest) = rest

unfoldable pub submit_single_xfer : ℕ → ℕ → ℕ → Chan → Chan
submit_single_xfer task dst src t = record t {
  tasks = update t.tasks task (record { src = src; dst = dst });
  flight = t.flight ++ task ∷ [];
  current_queue_depth = (t.current_queue_depth + 1) % 2 ^ 64;
}

unfoldable pub submit_xfers : ℕ → Chan → Chan
unfolding submit_single_xfer
submit_xfers zero t = t
submit_xfers (suc queue_depth) t = submit_xfers queue_depth (
    submit_single_xfer (get t.task_pool) (get (left t.data_pool)) (get t.data_pool)
      (record t { data_pool = left (left t.data_pool); task_pool = left t.task_pool }))

-- The counters at the end of a copy. `differs` is what `memcmp` says.
unfoldable pub count_done : Bool → Bool → Chan → Chan
count_done verify differs t =
    if verify && differs
    then record t { xfer_failed = (t.xfer_failed + 1) % 2 ^ 64 }
    else record t { xfer_completed = (t.xfer_completed + 1) % 2 ^ 64 }

-- `ioat_done` of a task, which has left the engine.
unfoldable pub ioat_done : Bool → Bool → ℕ → Chan → Chan
unfolding count_done submit_single_xfer
ioat_done verify differs task t =
    let t' = count_done verify differs t in
    let t'' = record t' { current_queue_depth = (t'.current_queue_depth + 2 ^ 64 - 1) % 2 ^ 64 } in
    let src : ℕ = (t''.tasks task).src in
    let dst : ℕ = (t''.tasks task).dst in
    if t''.is_draining
    then record t'' { data_pool = dst ∷ src ∷ t''.data_pool; task_pool = task ∷ t''.task_pool }
    else submit_single_xfer task dst src t''

-- One call of `spdk_ioat_process_events`.
unfoldable pub finish : Bool → Bool → List ℕ → Chan → Chan
unfolding ioat_done
finish verify differs [] t = t
finish verify differs (task ∷ rest) t = ioat_done verify differs task (record t { flight = rest })

unfoldable pub process_events : Bool → List Bool → Chan → Chan
unfolding finish
process_events verify [] t = t
process_events verify (differs ∷ more) t =
    process_events verify more (finish verify differs t.flight t)

-- The loop until the time is up, for the calls that are made in it.
unfoldable pub work_loop : Bool → List (List Bool) → Chan → Chan
unfolding process_events
work_loop verify [] t = t
work_loop verify (e ∷ es) t = work_loop verify es (process_events verify e t)

-- `drain_io`: none if it still waits after the calls that are given.
unfoldable pub drain_io : Bool → List (List Bool) → Chan → Option Chan
unfolding process_events
drain_io verify [] t = if t.current_queue_depth == 0 then some t else none
drain_io verify (e ∷ es) t =
    let rest = drain_io verify es (process_events verify e t) in
    if t.current_queue_depth == 0 then some t else rest

-- A new entry, for the addresses in its pools.
unfoldable pub new_chan : List ℕ → List ℕ → Chan
new_chan data_pool task_pool = record {
  xfer_completed = 0;
  xfer_failed = 0;
  current_queue_depth = 0;
  is_draining = false;
  data_pool = data_pool;
  task_pool = task_pool;
  tasks = λ a. record { src = 0; dst = 0 };
  flight = [];
}

-- `work_fn` for one channel.
unfoldable pub work_fn : Bool → ℕ → List (List Bool) → List (List Bool) → Chan → Option Chan
unfolding submit_xfers work_loop drain_io
work_fn verify queue_depth during after t =
    drain_io verify after
      (record (work_loop verify during (submit_xfers queue_depth t)) { is_draining = true })
