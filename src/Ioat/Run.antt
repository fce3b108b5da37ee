-- ===== src/Ioat/Run.antt =====
-- A run of one channel in ioat/bench.cc.
use systemish.Base.{
  ℕ, ◌^◌, ◌≤◌, ◌<◌, ◌≡◌, refl, ap, ◌∙◌, arith, Bool, true, false, List, [], ◌∷◌, length, total,
  some,
}
use systemish.Ioat.{Chan, submit_xfers, work_loop, new_chan, work_fn, pool_size}
use systemish.Ioat.Pools.{is, buffers, Balanced, recount-Balanced}
use systemish.Ioat.Drain.{work_loop-Balanced, drain_io-Balanced, submit_xfers-Balanced}

-- What the pools of a new entry hold.
pub record ArePools (data_elements task_elements : List ℕ) : Type 0 where
  pub buffers_number : length data_elements ≡ pool_size
  pub tasks_number : length task_elements ≡ pool_size
  pub real : total (is 0) data_elements ≡ 0
  pub distinct : (x : ℕ) → total (is x) task_elements ≤ 1

module _ (data_elements task_elements : List ℕ) (pools : ArePools data_elements task_elements)
    (verify : Bool) (queue_depth : ℕ) (room : queue_depth ≤ 256) where
  small_pool : length task_elements < 2 ^ 64
  small_pool = omega (arith, pools.tasks_number)

  submitted :
      Balanced data_elements task_elements
        (submit_xfers queue_depth (new_chan data_elements task_elements))
      × (length (submit_xfers queue_depth (new_chan data_elements task_elements)).flight
          ≡ queue_depth)
      × ((submit_xfers queue_depth (new_chan data_elements task_elements)).is_draining ≡ false)
  unfolding new_chan
  submitted =
      let (b, n, off) =
        submit_xfers-Balanced data_elements task_elements small_pool queue_depth
          (new_chan data_elements task_elements) pools.distinct
          (record { buffers_kept = λ w. omega arith; tasks_kept = λ w. omega arith; depth = refl })
          (omega (arith, pools.buffers_number)) (omega (arith, pools.tasks_number)) in
      (b, n ∙ omega arith, off)

  -- With a queue depth of at most 256, half a pool, every copy that is in flight while the channel
  -- works has two buffers that are not null, and as many copies are in flight as the depth says.
  pub work_loop-real :
      (during : List (List Bool))
      → (t : Chan) × (work_loop verify during
            (submit_xfers queue_depth (new_chan data_elements task_elements))
          ≡ t)
        × (total (buffers (is 0) t.tasks) t.flight ≡ 0)
        × (length t.flight ≡ queue_depth)
        × (t.current_queue_depth ≡ queue_depth)
  work_loop-real during =
      let (b, n, off) = submitted in
      let (b', n') =
        work_loop-Balanced data_elements task_elements small_pool verify during
          (submit_xfers queue_depth (new_chan data_elements task_elements)) b off in
      (_, refl, omega (arith, b'.buffers_kept (is 0), pools.real), n' ∙ n, b'.depth ∙ n' ∙ n)

  -- With a queue depth of at most 256, the run of a channel ends when the engine has finished as many copies after
  -- the time is up as the depth says; nothing is in flight then, and each pool has the elements
  -- that it had at first.
  pub work_fn-drains :
      (during after : List (List Bool))
      → queue_depth ≤ total length after
      → (u : Chan) × (work_fn verify queue_depth during after (new_chan data_elements task_elements)
          ≡ some u)
        × (u.flight ≡ [])
        × (u.current_queue_depth ≡ 0)
        × ((w : ℕ → ℕ) → total w u.data_pool ≡ total w data_elements)
        × ((w : ℕ → ℕ) → total w u.task_pool ≡ total w task_elements)
  unfolding work_fn
  work_fn-drains during after enough =
      let (b, n, off) = submitted in
      let (b', n') =
        work_loop-Balanced data_elements task_elements small_pool verify during
          (submit_xfers queue_depth (new_chan data_elements task_elements)) b off in
      let (u, run, b'', none_left) =
        drain_io-Balanced data_elements task_elements small_pool verify after _
          (recount-Balanced data_elements task_elements small_pool _ _ _ true b') refl
          (omega (arith, n, n', enough)) in
      let empty = is_nil u.flight none_left in
      (
        u,
        run,
        empty,
        b''.depth ∙ none_left,
        (λ w. omega (arith, b''.buffers_kept w, ap (total (buffers w u.tasks)) empty)),
        λ w. omega (arith, b''.tasks_kept w, ap (total w) empty),
      )
    where
      is_nil : (l : List ℕ) → length l ≡ 0 → l ≡ []
      is_nil [] h = refl
      is_nil (x ∷ l) h = absurd (omega (arith, h))
