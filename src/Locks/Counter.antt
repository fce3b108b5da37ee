-- ===== src/Locks/Counter.antt =====
-- locks/elementry_locks.c: four threads that increment one counter under a spinlock, a step at a
-- time. `counter++` is a load and a store.
use systemish.Base.{ℕ, suc, ◌<◌, ◌≡◌, add32, update, Bool, true, false}

-- MAX
abbrev pub max_rounds : ℕ
max_rounds = 5000000

-- the threads that `main` creates
abbrev pub num_threads : ℕ
num_threads = 4

-- Where a thread stands, with the rounds of its loop that are left.
pub data Pc : Type 0 where
  head : ℕ → Pc  -- the test of the loop
  waiting : ℕ → Pc  -- in `pthread_spin_lock`
  locked : ℕ → Pc  -- before the load of `counter`
  loaded : ℕ → ℕ → Pc  -- before the store, with the value that was read
  leaving : ℕ → Pc  -- before `pthread_spin_unlock`
  done : Pc

pub record Memory : Type 0 where
  pub lock : Bool  -- whether the spinlock is held
  pub counter : ℕ

-- One step of one thread. The print at each million changes nothing here.
pub data Move (m : Memory) : Pc → Memory → Pc → Type 0 where
  finish : Move m (head 0) m done
  enter : {n : ℕ} → Move m (head (suc n)) m (waiting n)
  spin : {n : ℕ} → m.lock ≡ true → Move m (waiting n) m (waiting n)
  acquire : {n : ℕ} → m.lock ≡ false → Move m (waiting n) (record m { lock = true }) (locked n)
  load : {n : ℕ} → Move m (locked n) m (loaded n m.counter)
  store : {n v : ℕ} → Move m (loaded n v) (record m { counter = add32 v 1 }) (leaving n)
  release : {n : ℕ} → Move m (leaving n) (record m { lock = false }) (head n)

pub record World : Type 0 where
  pub shared : Memory
  pub at : ℕ → Pc

-- The threads interleave in any order.
pub data Turn (s : World) : World → Type 0 where
  by :
      (i : ℕ) {m : Memory} {p : Pc}
      → i < num_threads
      → Move s.shared (s.at i) m p
      → Turn s (record { shared = m; at = update s.at i p })

-- `main` has initialised the lock and created the threads, each with `rounds` rounds to go.
abbrev pub main_world : ℕ → World
main_world rounds = record { shared = record { lock = false; counter = 0 }; at = λ i. head rounds }

pub data Reachable (rounds : ℕ) : World → Type 0 where
  created : Reachable rounds (main_world rounds)
  turned : {s t : World} → Reachable rounds s → Turn s t → Reachable rounds t
