-- ===== src/Examples/Locks.antt =====
-- The programs of locks/ at concrete inputs.
use systemish.Base.{ℕ, ◌+◌, ◌*◌, ◌≤◌, ◌<◌, ◌≡◌, refl, arith, sum_below, update, true, List, [], ◌∷◌}
use systemish.Locks.Counter.{
  World, waiting, locked, done, enter, acquire, by, main_world, Reachable, created, turned,
}
use systemish.Locks.Exclusion.{pending, spinlock-exclusive, counter-total}
use systemish.Locks.FetchAdd.{Shared, start}

-- Thread 1 has entered its loop, and holds the lock.
abbrev holding : World
holding = record {
  shared = record { lock = true; counter = 0 };
  at = update (update (main_world 3).at 1 (waiting 2)) 1 (locked 2);
}

abbrev reached : Reachable 3 holding
reached = turned (turned created (by 1 (omega arith) enter)) (by 1 (omega arith) (acquire refl))

counter-total_example :
    (holding.shared.counter + sum_below 4 (λ i. pending (holding.at i)) ≡ 4 * 3)
    × (((i : ℕ) → i < 4 → holding.at i ≡ done) → holding.shared.counter ≡ 4 * 3)
counter-total_example = counter-total {rounds = 3} {s = holding} (omega arith) reached

abbrev thread : ℕ
thread = 1

spinlock-exclusive_example : thread ≡ thread
spinlock-exclusive_example =
    spinlock-exclusive {rounds = 3} {s = holding} (omega arith) reached thread thread (omega arith)
      (omega arith) (omega arith) (omega arith)

abbrev schedule : List ℕ
schedule = 0 ∷ 1 ∷ 0 ∷ []

abbrev counters : Shared
counters = start (λ i. 5)

small_iters : (counters.threads 0).iters ≤ 10000000
unfolding start
small_iters = omega arith

abbrev plus : ℕ → ℕ → ℕ
plus a b = a + b
