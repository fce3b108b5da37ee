-- ===== src/Ioat/Pools.antt =====
-- The pools of ioat/bench.cc: every buffer and every task is in its pool or in flight.
use systemish.Base.{
  ℕ, ◌+◌, ◌-◌, ◌%◌, ◌^◌, ◌≤◌, ◌<◌, ◌≡◌, refl, sym, ap, arith, ◌==◌, ==_iff, if◌then◌else◌, ◌&&◌,
  Bool, Bool-cases, inl, inr, List, [], ◌∷◌, ◌++◌, update, length, length-append, total,
  total-append,
}
use systemish.Ioat.{Task, Chan, submit_single_xfer, count_done, ioat_done, finish}

-- 1 at `x`, else 0
abbrev pub is : ℕ → ℕ → ℕ
is x y = if x == y then 1 else 0

-- The weight of the two buffers of a task.
abbrev pub buffers : (ℕ → ℕ) → (ℕ → Task) → ℕ → ℕ
buffers w tasks k = w (tasks k).src + w (tasks k).dst

pub length-total : (l : List ℕ) → length l ≡ total (λ _. 1) l
length-total [] = refl
length-total (x ∷ l) = omega (arith, length-total l)

total-same : (f g : ℕ → ℕ) (l : List ℕ) → ((k : ℕ) → f k ≡ g k) → total f l ≡ total g l
total-same f g [] h = refl
total-same f g (x ∷ l) h = omega (arith, h x, total-same f g l h)

-- A task that is not in the list is written.
total-update :
    (w : ℕ → ℕ) (tasks : ℕ → Task) (k : ℕ) (v : Task) (l : List ℕ)
    → total (is k) l ≡ 0
    → total (buffers w (update tasks k v)) l ≡ total (buffers w tasks) l
total-update w tasks k v [] h = refl
total-update w tasks k v (x ∷ l) h = elim (Bool-cases (x == k)) [
  | inl same ↦ absurd (ground (arith, h, same))
  | inr other ↦ rw other (omega (arith, total-update w tasks k v l (omega (arith, h))))
]

-- Buffers and tasks that the pools had at first, and the depth.
pub record Balanced (data_elements task_elements : List ℕ) (t : Chan) : Type 0 where
  pub buffers_kept :
      (w : ℕ → ℕ) → total w t.data_pool + total (buffers w t.tasks) t.flight ≡ total w data_elements
  pub tasks_kept : (w : ℕ → ℕ) → total w t.task_pool + total w t.flight ≡ total w task_elements
  pub depth : t.current_queue_depth ≡ length t.flight

module _ (data_elements task_elements : List ℕ) (small : length task_elements < 2 ^ 64) where
  pub flight-small :
      (t : Chan)
      → Balanced data_elements task_elements t
      → length t.task_pool + length t.flight ≡ length task_elements
  flight-small t b = omega (
    arith,
    b.tasks_kept (λ _. 1),
    length-total t.task_pool,
    length-total t.flight,
    length-total task_elements,
  )

  -- A submission of a task and two buffers from the pools.
  pub submit-Balanced :
      (t : Chan) (k src dst : ℕ) (ks ds : List ℕ)
      → ((x : ℕ) → total (is x) task_elements ≤ 1)
      → Balanced data_elements task_elements t
      → t.task_pool ≡ k ∷ ks
      → t.data_pool ≡ src ∷ dst ∷ ds
      → Balanced data_elements task_elements
          (submit_single_xfer k dst src (record t { data_pool = ds; task_pool = ks }))
  unfolding submit_single_xfer
  submit-Balanced t k src dst ks ds distinct b at at' = record {
    buffers_kept = λ w. omega (arith, b.buffers_kept w, ap (total w) at', in_flight w);
    tasks_kept =
        λ w. omega (arith, b.tasks_kept w, ap (total w) at, total-append w t.flight (k ∷ []));
    depth = omega (arith, b.depth, length-append t.flight (k ∷ []), flight-small t b, ap length at);
  }
    where
      absent : total (is k) t.flight ≡ 0
      absent = ground (arith, b.tasks_kept (is k), ap (total (is k)) at, distinct k)

      tasks : ℕ → Task
      tasks = update t.tasks k (record { src = src; dst = dst })

      here : (w : ℕ → ℕ) → buffers w tasks k ≡ w src + w dst
      here w = ground arith

      in_flight :
          (w : ℕ → ℕ)
          → total (buffers w tasks) (t.flight ++ k ∷ [])
            ≡ total (buffers w t.tasks) t.flight + (w src + w dst)
      in_flight w = omega (
        arith,
        total-append (buffers w tasks) t.flight (k ∷ []),
        here w,
        total-update w t.tasks k (record { src = src; dst = dst }) t.flight absent,
      )

  -- What an entry is once its oldest task has left the engine.
  abbrev returned : Chan → ℕ → List ℕ → Chan
  returned t task rest = record t {
    flight = rest;
    data_pool = (t.tasks task).dst ∷ (t.tasks task).src ∷ t.data_pool;
    task_pool = task ∷ t.task_pool;
    current_queue_depth = (t.current_queue_depth + 2 ^ 64 - 1) % 2 ^ 64;
  }

  abbrev resubmitted : Chan → ℕ → List ℕ → Chan
  resubmitted t task rest = record t {
    flight = rest ++ task ∷ [];
    tasks = update t.tasks task (t.tasks task);
    current_queue_depth = ((t.current_queue_depth + 2 ^ 64 - 1) % 2 ^ 64 + 1) % 2 ^ 64;
  }

  returned-Balanced :
      (t : Chan) (task : ℕ) (rest : List ℕ)
      → Balanced data_elements task_elements t
      → t.flight ≡ task ∷ rest
      → Balanced data_elements task_elements (returned t task rest)
  returned-Balanced t task rest b e = record {
    buffers_kept = λ w. omega (arith, b.buffers_kept w, ap (total (buffers w t.tasks)) e);
    tasks_kept = λ w. omega (arith, b.tasks_kept w, ap (total w) e);
    depth = omega (arith, b.depth, ap length e, flight-small t b);
  }

  resubmitted-Balanced :
      (t : Chan) (task : ℕ) (rest : List ℕ)
      → Balanced data_elements task_elements t
      → t.flight ≡ task ∷ rest
      → Balanced data_elements task_elements (resubmitted t task rest)
  resubmitted-Balanced t task rest b e = record {
    buffers_kept = λ w. omega (
      arith,
      b.buffers_kept w,
      ap (total (buffers w t.tasks)) e,
      total-same (buffers w (update t.tasks task (t.tasks task))) (buffers w t.tasks)
          (rest ++ task ∷ []) (λ k. ap (λ v. w v.src + w v.dst) (same_value k)),
      total-append (buffers w t.tasks) rest (task ∷ []),
    );
    tasks_kept =
        λ w. omega (arith, b.tasks_kept w, ap (total w) e, total-append w rest (task ∷ []));
    depth = omega (arith, b.depth, ap length e, flight-small t b, length-append rest (task ∷ []));
  }
    where
      same_value : (k : ℕ) → update t.tasks task (t.tasks task) k ≡ t.tasks k
      same_value k = elim (Bool-cases (k == task)) [
        | inl at ↦ rw at (ap t.tasks (sym ((==_iff k task).0 at)))
        | inr off ↦ rw off refl
      ]

  -- The counters and the flag do not matter.
  pub recount-Balanced :
      (t : Chan) (completed failed : ℕ) (draining : Bool)
      → Balanced data_elements task_elements t
      → Balanced data_elements task_elements
          (record t { xfer_completed = completed; xfer_failed = failed; is_draining = draining })
  recount-Balanced t completed failed draining b = record {
    buffers_kept = b.buffers_kept;
    tasks_kept = b.tasks_kept;
    depth = b.depth;
  }

  -- A task that leaves the engine is submitted again, or, if the channel is draining, goes back to
  -- the pool with its buffers.
  pub finish-Balanced :
      (verify differs : Bool) (flight : List ℕ) (t : Chan)
      → Balanced data_elements task_elements t
      → t.flight ≡ flight
      → Balanced data_elements task_elements (finish verify differs flight t)
  unfolding finish submit_single_xfer count_done ioat_done
  finish-Balanced verify differs [] t b e = b
  finish-Balanced verify differs (task ∷ rest) t b e = elim (Bool-cases (verify && differs)) [
    | inl failed ↦ elim (Bool-cases t.is_draining) [
      | inl on ↦
          rw (failed, on)
            (recount-Balanced (returned t task rest) _ _ _ (returned-Balanced t task rest b e))
      | inr off ↦
          rw (failed, off)
            (recount-Balanced (resubmitted t task rest) _ _ _
              (resubmitted-Balanced t task rest b e))
    ]
    | inr right ↦ elim (Bool-cases t.is_draining) [
      | inl on ↦
          rw (right, on)
            (recount-Balanced (returned t task rest) _ _ _ (returned-Balanced t task rest b e))
      | inr off ↦
          rw (right, off)
            (recount-Balanced (resubmitted t task rest) _ _ _
              (resubmitted-Balanced t task rest b e))
    ]
  ]
