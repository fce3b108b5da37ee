-- ===== src/Locks/ManyLock.antt =====
-- locks/manylock.c, as it is compiled, with fetch-and-add: the affinity call, the rows and the
-- throughput report.
use systemish.Locks.FetchAdd.{hrd_fastrand, seed_after}
use systemish.Base.{
  length, ℕ, ◌+◌, ◌*◌, ◌%◌, ◌^◌, ◌<◌, ◌≡◌, ap, arith, is_negative, slt, ltb, ◌==◌, ◌||◌, ◌&&◌, not,
  if◌then◌else◌, for_below, add32, update, fill, fill-below, List, [], ◌∷◌, sum_below,
  sum_below-change, sum_below-zero, Bool, Bool-cases, inl, inr,
}

abbrev pub num_threads : ℕ
num_threads = 28

-- EINVAL of errno.h
abbrev pub einval : ℕ
einval = 22

-- `set_affinity` is `pthread_setaffinity_np` of the calling thread to one core.
unfoldable pub stick_this_thread_to_core : (ℕ → ℕ) → ℕ → ℕ
stick_this_thread_to_core set_affinity core_id =
    if is_negative core_id || not (slt core_id 28) then einval else set_affinity core_id

-- A core that the machine is taken to have is passed on, any other `int` is refused.
pub stick_this_thread_to_core_lem :
    (set_affinity : ℕ → ℕ) (core_id : ℕ)
    → core_id < 2 ^ 32
    → stick_this_thread_to_core set_affinity core_id
      ≡ (if ltb core_id 28 then set_affinity core_id else einval)
unfolding stick_this_thread_to_core
stick_this_thread_to_core_lem set_affinity core_id h = ground arith

-- NUM_ROWS and M_1; `& NUM_ROWS_` and `& M_1_` are masks of twenty ones.
abbrev pub num_rows : ℕ
num_rows = 1024 * 1024

abbrev pub m_1 : ℕ
m_1 = 1024 * 1024

-- `seed` and `iter` of `thread_function`
pub record Local : Type 0 where
  pub seed : ℕ
  pub iter : ℕ

-- The counters of the rows (`long long`), the array `tput`, the threads, and the totals that have
-- been printed, the last first. The locks of a row are not used.
pub record Rows (Double : Type 0) : Type 0 where
  pub counter : ℕ → ℕ
  pub tput : ℕ → Double
  pub locals : ℕ → Local
  pub totals : List Double

-- The locals of thread `tid` at the start of its endless loop.
unfoldable pub warm : ℕ → Local
warm tid = record { seed = seed_after (tid * 1000000) 0xdeadbeef; iter = 0 }

-- The throughputs are of type `double`, with its addition and 0.0. `my_tput tid iter` is what
-- thread `tid` measures in that round.
module _ {Double : Type 0} (add : Double → Double → Double) (zero_double : Double)
    (my_tput : ℕ → ℕ → Double) where
  -- The loop of thread `tid` over the threads: it reads `tput[tid]` in every round.
  unfoldable pub total_tput : (ℕ → Double) → ℕ → Double
  total_tput tput tid = for_below num_threads (λ t_i total. add total (tput tid)) zero_double

  -- `main`, from the memory that `malloc` returned and the array `tput`.
  unfoldable pub begin : (ℕ → ℕ) → (ℕ → Double) → Rows Double
  begin memory garbage = record {
    counter = fill num_rows (λ i. 0) memory;
    tput = fill num_threads (λ i. zero_double) garbage;
    locals = warm;
    totals = [];
  }

  unfoldable pub report : ℕ → Rows Double → Rows Double
  unfolding total_tput
  report tid s =
      let iter = (s.locals tid).iter in
      let tput = update s.tput tid (my_tput tid iter) in
      if iter % m_1 == 0 && not (iter == 0)
      then record s {
        tput = tput;
        totals = if tid == 0 then total_tput tput tid ∷ s.totals else s.totals;
      }
      else s

  unfoldable pub count_up : ℕ → Rows Double → Rows Double
  unfolding hrd_fastrand
  count_up tid s =
      let (seed, r) = hrd_fastrand (s.locals tid).seed in
      let row_i = r % num_rows in
      record s {
        counter = update s.counter row_i ((s.counter row_i + 1) % 2 ^ 64);
        locals = update s.locals tid (record { seed = seed; iter = add32 (s.locals tid).iter 1 });
      }

  -- The rounds of the threads, in the order of their additions.
  unfoldable pub work : List ℕ → Rows Double → Rows Double
  unfolding report count_up
  work [] s = s
  work (tid ∷ schedule) s = work schedule (count_up tid (report tid s))

  report-counter : (tid : ℕ) (s : Rows Double) → (report tid s).counter ≡ s.counter
  unfolding report
  report-counter tid s = elim (Bool-cases late) [
    | inl yes_it_is ↦ rw yes_it_is
    | inr not_yet ↦ rw not_yet
  ]
    where
      late : Bool
      late = (s.locals tid).iter % m_1 == 0 && not ((s.locals tid).iter == 0)

  count_up-sum :
      (tid : ℕ) (s : Rows Double)
      → sum_below num_rows (count_up tid s).counter % 2 ^ 64
        ≡ (sum_below num_rows s.counter + 1) % 2 ^ 64
  unfolding count_up
  count_up-sum tid s = omega (
    arith,
    sum_below-change num_rows (count_up tid s).counter s.counter k (omega arith)
        (λ i low ne. ground arith),
    here,
  )
    where
      k : ℕ
      k = (hrd_fastrand (s.locals tid).seed).1 % num_rows

      here : (count_up tid s).counter k ≡ (s.counter k + 1) % 2 ^ 64
      here = ground arith

  -- In any schedule of the threads from any state, the rows together have grown by one for each
  -- round, modulo 2 ^ 64.
  pub work-sum :
      (schedule : List ℕ) (s : Rows Double)
      → sum_below num_rows (work schedule s).counter % 2 ^ 64
        ≡ (sum_below num_rows s.counter + length schedule) % 2 ^ 64
  unfolding work
  work-sum [] s = omega arith
  work-sum (tid ∷ schedule) s = omega (
    arith,
    work-sum schedule (count_up tid (report tid s)),
    count_up-sum tid (report tid s),
    ap (sum_below num_rows) (report-counter tid s),
  )

  -- From the start of `main`, the counters of all rows add up to the number of rounds that the
  -- threads have made, in any order, modulo 2 ^ 64.
  pub begin-work_sum :
      (memory : ℕ → ℕ) (garbage : ℕ → Double) (schedule : List ℕ)
      → sum_below num_rows (work schedule (begin memory garbage)).counter % 2 ^ 64
        ≡ length schedule % 2 ^ 64
  begin-work_sum memory garbage schedule = omega (
    arith,
    work-sum schedule (begin memory garbage),
    sum_below-zero num_rows (begin memory garbage).counter
        (λ i low. unfold begin in fill-below (λ i. 0) memory num_rows i low),
  )
