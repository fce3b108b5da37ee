-- ===== src/Ioat/Drains.antt =====
-- How a worker of ioat/bench.cc with several channels ends.
use systemish.Base.{
  ℕ, suc, ◌≤◌, ◌<◌, ◌+◌, ◌≡◌, refl, ap, ◌∙◌, arith, Bool, List, [], ◌∷◌, All, length, map, total,
  some, ◌>>=◌,
}
use systemish.Ioat.{Chan, new_chan}
use systemish.Ioat.Run.{ArePools, work_fn-drains}
use systemish.Ioat.Worker.{work_all, column, each_alone, work_all-each}

-- What the pools of a channel hold: the buffers, and the memory of the tasks.
abbrev pub Pools : Type 0
Pools = List ℕ × List ℕ

abbrev pub new_entry : Pools → Chan
new_entry p = new_chan p.0 p.1

-- Nothing is in flight, and the pools have what they had at first.
pub record Drained (p : Pools) (u : Chan) : Type 0 where
  pub idle : u.flight ≡ []
  pub depth : u.current_queue_depth ≡ 0
  pub buffers_back : (w : ℕ → ℕ) → total w u.data_pool ≡ total w p.0
  pub tasks_back : (w : ℕ → ℕ) → total w u.task_pool ≡ total w p.1

abbrev pub AllDrained : List Pools → List Chan → Type 0
AllDrained [] [] = Unit {0}
AllDrained (p ∷ ps) (u ∷ us) = Drained p u × AllDrained ps us
AllDrained _ _ = ⊥

module _ (verify : Bool) (queue_depth : ℕ) (room : queue_depth ≤ 256) where
  each_alone-AllDrained :
      (during : List (ℕ → List Bool)) (after : ℕ → List (List Bool)) (i : ℕ) (ps : List Pools)
      → All (λ (p : Pools). ArePools p.0 p.1) ps
      → ((j : ℕ) → i ≤ j → j < i + length ps → queue_depth ≤ total length (after j))
      → (us : List Chan) × (each_alone verify queue_depth during after i (map new_entry ps)
          ≡ some us)
        × AllDrained ps us
  each_alone-AllDrained during after i [] are enough = ([], refl, tt)
  each_alone-AllDrained during after i (p ∷ ps) (is, are) enough =
      let (u, run, idle, depth, buffers, tasks) =
        work_fn-drains p.0 p.1 is verify queue_depth room (column i during) (after i)
          (enough i (omega arith) (omega arith)) in
      let (us, runs, drained) =
        each_alone-AllDrained during after (suc i) ps are
          (λ j h h'. enough j (omega (arith, h)) (omega (arith, h'))) in
      (
        u ∷ us,
        ap
              (λ o. o >>= λ u.
                each_alone verify queue_depth during after (suc i) (map new_entry ps) >>= λ us.
                some (u ∷ us))
              run
            ∙ ap (λ o. o >>= λ us. some (u ∷ us)) runs,
        (
          record { idle = idle; depth = depth; buffers_back = buffers; tasks_back = tasks },
          drained,
        ),
      )

  -- With a queue depth of at most 256, a worker that takes turns with its new channels ends: if for
  -- each of them the engine finishes as many copies after the time is up as the depth says, it
  -- drains one after the other, and then nothing is in flight on any channel, and the pools of each
  -- have the elements that they had at first.
  pub work_all-AllDrained :
      (during : List (ℕ → List Bool)) (after : ℕ → List (List Bool)) (ps : List Pools)
      → All (λ (p : Pools). ArePools p.0 p.1) ps
      → ((j : ℕ) → j < length ps → queue_depth ≤ total length (after j))
      → (us : List Chan) × (work_all verify queue_depth during after (map new_entry ps) ≡ some us)
        × AllDrained ps us
  work_all-AllDrained during after ps are enough =
      let (us, run, drained) =
        each_alone-AllDrained during after 0 ps are (λ j h h'. enough j (omega (arith, h'))) in
      (us, work_all-each verify queue_depth during after (map new_entry ps) ∙ run, drained)
