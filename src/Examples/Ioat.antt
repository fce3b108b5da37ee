-- ===== src/Examples/Ioat.antt =====
-- A run of one channel of ioat/bench.cc.
use systemish.Base.{map}
use systemish.Ioat.Worker.{work_all}
use systemish.Ioat.Drains.{Pools, new_entry, AllDrained, work_all-AllDrained}
use systemish.Ioat.Run.{work_loop-real, work_fn-drains, ArePools}
use systemish.Ioat.{
  get, submit_single_xfer, new_chan, work_fn, work_loop, pool_size, submit_xfers, Chan,
}
use systemish.Ioat.Pools.{buffers, is}
use systemish.Base.{
  ℕ, zero, suc, ◌≤◌, ◌<◌, ◌≡◌, refl, ap, arith, ◌==◌, Bool, true, false, Bool-cases, inl, inr, List,
  [], ◌∷◌, length, total, some,
}

-- The numbers from `n` down to 1, as addresses.
abbrev down_from : ℕ → List ℕ
down_from zero = []
down_from (suc n) = suc n ∷ down_from n

down_from-length : (n : ℕ) → length (down_from n) ≡ n
down_from-length zero = refl
down_from-length (suc n) = ap suc (down_from-length n)

down_from-above : (n x : ℕ) → n < x → total (is x) (down_from n) ≡ 0
down_from-above zero x h = refl
down_from-above (suc n) x h = ground (arith, down_from-above n x (omega arith))

down_from-distinct : (n x : ℕ) → total (is x) (down_from n) ≤ 1
down_from-distinct zero x = omega arith
down_from-distinct (suc n) x = elim (Bool-cases (x == suc n)) [
  | inl at ↦ rw at (ground (arith, at, down_from-above n x))
  | inr off ↦ rw off (omega (arith, down_from-distinct n x))
]

down_from-real : (n : ℕ) → total (is 0) (down_from n) ≡ 0
down_from-real zero = refl
down_from-real (suc n) = ground (arith, down_from-real n)

pools : ArePools (down_from pool_size) (down_from pool_size)
pools = record {
  buffers_number = down_from-length pool_size;
  tasks_number = down_from-length pool_size;
  real = down_from-real pool_size;
  distinct = down_from-distinct pool_size;
}

-- A depth of 3; five copies finish before the time is up, and three after it.
abbrev during : List (List Bool)
during = (false ∷ false ∷ []) ∷ [] ∷ (false ∷ true ∷ false ∷ []) ∷ []

abbrev after : List (List Bool)
after = (false ∷ []) ∷ (true ∷ false ∷ []) ∷ []

abbrev two_pools : List Pools
two_pools =
    (down_from pool_size, down_from pool_size) ∷ (down_from pool_size, down_from pool_size) ∷ []

work_fn-drains_example :
    (u : Chan) × (work_fn true 3 during after (new_chan (down_from pool_size) (down_from pool_size))
      ≡ some u)
    × (u.flight ≡ [])
    × (u.current_queue_depth ≡ 0)
    × ((w : ℕ → ℕ) → total w u.data_pool ≡ total w (down_from pool_size))
    × ((w : ℕ → ℕ) → total w u.task_pool ≡ total w (down_from pool_size))
work_fn-drains_example =
    work_fn-drains (down_from pool_size) (down_from pool_size) pools true 3 (omega arith) during
      after (omega arith)

work_loop-real_example :
    (t : Chan) × (work_loop true during
        (submit_xfers 3 (new_chan (down_from pool_size) (down_from pool_size)))
      ≡ t)
    × (total (buffers (is 0) t.tasks) t.flight ≡ 0)
    × (length t.flight ≡ 3)
    × (t.current_queue_depth ≡ 3)
work_loop-real_example =
    work_loop-real (down_from pool_size) (down_from pool_size) pools true 3 (omega arith) during

-- A pool of five buffers does not have enough for three copies.
short_pool_test : get (submit_xfers 2 (new_chan (down_from 4) (down_from 5))).data_pool ≡ 0
unfolding submit_xfers new_chan submit_single_xfer
short_pool_test = refl

-- Two channels, with the same calls for each.
work_all-AllDrained_example :
    (us : List Chan) × (work_all true 3
        ((λ i. false ∷ []) ∷ [])
        (λ i. after)
        (map new_entry (two_pools))
      ≡ some us)
    × AllDrained two_pools us
work_all-AllDrained_example =
    work_all-AllDrained true 3 (omega arith) ((λ i. false ∷ []) ∷ []) (λ i. after) two_pools
      (pools, (pools, tt)) (λ j h. omega arith)
