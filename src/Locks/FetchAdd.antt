-- ===== src/Locks/FetchAdd.antt =====
-- locks/fetch-add.c: threads that pick counters at random and add to them atomically.
use systemish.Base.{
  length, ℕ, zero, suc, ◌+◌, ◌*◌, ◌/◌, ◌%◌, ◌^◌, ◌≤◌, ◌≡◌, refl, ap, ◌∙◌, arith, update, false,
  ◌==◌, if◌then◌else◌, Bool-cases, ==_iff, inl, inr, List, [], ◌∷◌, sum_below, sum_below-change,
}

abbrev pub num_counters : ℕ
num_counters = 128

-- hrd_fastrand: the seed that it stores, and what it returns
unfoldable pub next_seed : ℕ → ℕ
next_seed seed = (seed * 1103515245 + 12345) % 2 ^ 64

unfoldable pub hrd_fastrand : ℕ → ℕ × ℕ
unfolding next_seed
hrd_fastrand seed = let seed' = next_seed seed in (seed', seed' / 2 ^ 32)

-- The local variables of `thread_func`.
pub record Thread : Type 0 where
  pub seed : ℕ
  pub iters : ℕ

pub record Shared : Type 0 where
  pub cnt : ℕ → ℕ  -- `counter_arr[i].cnt`, a `long long`
  pub threads : ℕ → Thread

abbrev pub first_thread : Thread
first_thread = record { seed = 0xdeadbeef; iters = 0 }

-- `main`: the counters hold whatever `malloc` returned.
unfoldable pub start : (ℕ → ℕ) → Shared
start memory = record { cnt = memory; threads = λ tid. first_thread }

-- One round of the loop of thread `tid`; `& NUM_COUNTERS_` is a mask of seven ones.
unfoldable pub iterate : ℕ → Shared → Shared
unfolding hrd_fastrand
iterate tid s =
    let t = s.threads tid in
    let iters = if t.iters == 10000000 then 0 else t.iters in
    let (seed, r) = hrd_fastrand t.seed in
    let counter_i = r % num_counters in
    record {
      cnt = update s.cnt counter_i ((s.cnt counter_i + 1) % 2 ^ 64);
      threads = update s.threads tid (record { seed = seed; iters = iters + 1 });
    }

-- The rounds in the order in which their atomic additions happen.
unfoldable pub run : List ℕ → Shared → Shared
run [] s = s
run (tid ∷ schedule) s = run schedule (iterate tid s)

abbrev pub count : ℕ → List ℕ → ℕ
count t [] = 0
count t (x ∷ xs) = if t == x then suc (count t xs) else count t xs

unfoldable pub seed_after : ℕ → ℕ → ℕ
seed_after zero seed = seed
seed_after (suc n) seed = seed_after n (next_seed seed)

-- What one round does to the counters and to the thread.
iterate-sum :
    (tid : ℕ) (s : Shared)
    → sum_below num_counters (iterate tid s).cnt % 2 ^ 64
      ≡ (sum_below num_counters s.cnt + 1) % 2 ^ 64
unfolding iterate
iterate-sum tid s = omega (
  arith,
  sum_below-change 128 (iterate tid s).cnt s.cnt k (omega arith) (λ i low ne. ground arith),
  here,
)
  where
    k : ℕ
    k = (hrd_fastrand (s.threads tid).seed).1 % 128

    here : (iterate tid s).cnt k ≡ (s.cnt k + 1) % 2 ^ 64
    here = ground arith

iterate-outside : (tid : ℕ) (s : Shared) (i : ℕ) → 128 ≤ i → (iterate tid s).cnt i ≡ s.cnt i
unfolding iterate
iterate-outside tid s i h = ground arith

iterate-own :
    (tid : ℕ) (s : Shared) (t : ℕ)
    → t ≡ tid
    → (s.threads t).iters ≤ 10000000
    → (((iterate tid s).threads t).seed ≡ next_seed (s.threads t).seed)
      × (((iterate tid s).threads t).iters ≤ 10000000)
unfolding iterate
iterate-own tid s t e h = rw (← e) (ground arith, ground arith)

iterate-other :
    (tid : ℕ) (s : Shared) (t : ℕ) → (t == tid) ≡ false → (iterate tid s).threads t ≡ s.threads t
unfolding iterate
iterate-other tid s t off = rw off

-- After any schedule the counters have grown by one for each round, modulo 2 ^ 64, and nothing
-- outside the array has changed.
pub run-sum :
    (schedule : List ℕ) (s : Shared)
    → (sum_below num_counters (run schedule s).cnt % 2 ^ 64
        ≡ (sum_below num_counters s.cnt + length schedule) % 2 ^ 64)
      × ((i : ℕ) → num_counters ≤ i → (run schedule s).cnt i ≡ s.cnt i)
unfolding run
run-sum [] s = (omega arith, λ i h. refl)
run-sum (tid ∷ schedule) s =
    let (e, out) = run-sum schedule (iterate tid s) in
    (omega (arith, e, iterate-sum tid s), λ i h. out i h ∙ iterate-outside tid s i h)

-- In any schedule, the seed of a thread is that after its own number of rounds, whatever the
-- others do, and its `iters` stays at most 10000000 if it was.
pub run-seed :
    (schedule : List ℕ) (s : Shared) (t : ℕ)
    → (s.threads t).iters ≤ 10000000
    → (((run schedule s).threads t).seed ≡ seed_after (count t schedule) (s.threads t).seed)
      × (((run schedule s).threads t).iters ≤ 10000000)
unfolding run seed_after
run-seed [] s t h = (refl, h)
run-seed (tid ∷ schedule) s t h = elim (Bool-cases (t == tid)) [
  | inl at ↦
      let (own, few) = iterate-own tid s t ((==_iff t tid).0 at) h in
      let (e, few') = run-seed schedule (iterate tid s) t few in
      (rw at (e ∙ ap (seed_after (count t schedule)) own), few')
  | inr off ↦
      let same = iterate-other tid s t off in
      let (e, few') =
        run-seed schedule (iterate tid s) t (rw (ap (λ (x : Thread). x.iters) same) h) in
      (rw off (e ∙ ap (λ (x : Thread). seed_after (count t schedule) x.seed) same), few')
]
