-- ===== src/Ioat/Drain.antt =====
-- The loops of ioat/bench.cc: submission, work and drain.
use systemish.Base.{
  ℕ, zero, suc, ◌+◌, ◌-◌, ◌*◌, ◌^◌, ◌≤◌, ◌<◌, ◌≡◌, refl, sym, ap, ◌∙◌, arith, ◌==◌, ==_iff, ◌&&◌,
  Bool, true, false, Bool-cases, inl, inr, List, [], ◌∷◌, ◌++◌, length, length-append, total, some,
}
use mathlib.Core.Path.{subst}
use systemish.Ioat.{
  Chan, get, left, submit_single_xfer, submit_xfers, count_done, ioat_done, finish, process_events,
  work_loop, drain_io,
}
use systemish.Ioat.Pools.{is, Balanced, submit-Balanced, finish-Balanced}

-- The flight and the flag after one copy.
finish-flight :
    (verify differs : Bool) (flight : List ℕ) (t : Chan)
    → t.flight ≡ flight
    → ((finish verify differs flight t).is_draining ≡ t.is_draining)
      × (t.is_draining ≡ true → length (finish verify differs flight t).flight ≡ length flight - 1)
      × (t.is_draining ≡ false → length (finish verify differs flight t).flight ≡ length flight)
unfolding finish submit_single_xfer count_done ioat_done
finish-flight verify differs [] t e = (refl, (λ _. ap length e), λ _. ap length e)
finish-flight verify differs (task ∷ rest) t e = elim (Bool-cases (verify && differs)) [
  | inl failed ↦ elim (Bool-cases t.is_draining) [
    | inl on ↦ rw (failed, on) (refl, (λ _. omega arith), λ h. cc)
    | inr off ↦ rw (failed, off) (refl, (λ h. cc), λ _. resubmitted)
  ]
  | inr right ↦ elim (Bool-cases t.is_draining) [
    | inl on ↦ rw (right, on) (refl, (λ _. omega arith), λ h. cc)
    | inr off ↦ rw (right, off) (refl, (λ h. cc), λ _. resubmitted)
  ]
]
  where
    resubmitted : length (rest ++ task ∷ []) ≡ suc (length rest)
    resubmitted = omega (arith, length-append rest (task ∷ []))

module _ (data_elements task_elements : List ℕ) (small : length task_elements < 2 ^ 64) where
  -- The copies that finish in one call.
  process-Balanced :
      (verify : Bool) (e : List Bool) (t : Chan)
      → Balanced data_elements task_elements t
      → Balanced data_elements task_elements (process_events verify e t)
        × (t.is_draining ≡ true
            → (length (process_events verify e t).flight ≡ length t.flight - length e)
              × ((process_events verify e t).is_draining ≡ true))
        × (t.is_draining ≡ false
            → (length (process_events verify e t).flight ≡ length t.flight)
              × ((process_events verify e t).is_draining ≡ false))
  unfolding process_events
  process-Balanced verify [] t b = (b, (λ h. (omega arith, h)), λ h. (refl, h))
  process-Balanced verify (differs ∷ more) t b =
      let (kept, less, same) = finish-flight verify differs t.flight t refl in
      let (b', draining, working) =
        process-Balanced verify more (finish verify differs t.flight t)
          (finish-Balanced data_elements task_elements small verify differs t.flight t b refl) in
      (
        b',
        (λ h. let (n, on) = draining (kept ∙ h) in (omega (arith, n, less h), on)),
        λ h. let (n, off) = working (kept ∙ h) in (omega (arith, n, same h), off),
      )

  pub work_loop-Balanced :
      (verify : Bool) (es : List (List Bool)) (t : Chan)
      → Balanced data_elements task_elements t
      → t.is_draining ≡ false
      → Balanced data_elements task_elements (work_loop verify es t)
        × (length (work_loop verify es t).flight ≡ length t.flight)
  unfolding work_loop
  work_loop-Balanced verify [] t b off = (b, refl)
  work_loop-Balanced verify (e ∷ es) t b off =
      let (b', _, working) = process-Balanced verify e t b in
      let (n, off') = working off in
      let (b'', n') = work_loop-Balanced verify es (process_events verify e t) b' off' in
      (b'', n' ∙ n)

  -- A channel that drains is done once the engine has finished as many copies as were in flight.
  pub drain_io-Balanced :
      (verify : Bool) (es : List (List Bool)) (t : Chan)
      → Balanced data_elements task_elements t
      → t.is_draining ≡ true
      → length t.flight ≤ total length es
      → (u : Chan) × (drain_io verify es t ≡ some u)
        × Balanced data_elements task_elements u
        × (length u.flight ≡ 0)
  unfolding drain_io
  drain_io-Balanced verify [] t b on h = (t, rw done refl, b, omega (arith, h))
    where
      done : (t.current_queue_depth == 0) ≡ true
      done = ground (arith, b.depth, h)
  drain_io-Balanced verify (e ∷ es) t b on h = elim (Bool-cases (t.current_queue_depth == 0)) [
    | inl done ↦
        (t, rw done refl, b, omega (arith, b.depth, (==_iff t.current_queue_depth 0).0 done))
    | inr more ↦
        let (b', draining, _) = process-Balanced verify e t b in
        let (n, on') = draining on in
        let (u, run, b'', zero_left) =
          drain_io-Balanced verify es (process_events verify e t) b' on' (omega (arith, n, h)) in
        (u, rw more run, b'', zero_left)
  ]

  -- The first submissions, for which the pools have enough.
  pub submit_xfers-Balanced :
      (queue_depth : ℕ) (t : Chan)
      → ((x : ℕ) → total (is x) task_elements ≤ 1)
      → Balanced data_elements task_elements t
      → 2 * queue_depth ≤ length t.data_pool
      → queue_depth ≤ length t.task_pool
      → Balanced data_elements task_elements (submit_xfers queue_depth t)
        × (length (submit_xfers queue_depth t).flight ≡ length t.flight + queue_depth)
        × ((submit_xfers queue_depth t).is_draining ≡ t.is_draining)
  unfolding submit_xfers
  submit_xfers-Balanced zero t distinct b enough enough' = (b, omega arith, refl)
  submit_xfers-Balanced (suc queue_depth) t distinct b enough enough' =
      let (k, ks, at) = one_of t.task_pool (omega arith) in
      let (src, dst, ds, at') = two_of t.data_pool (omega arith) in
      let b' =
        submit-Balanced data_elements task_elements small t k src dst ks ds distinct b at at' in
      let (b'', n, flag) =
        submit_xfers-Balanced queue_depth
          (submit_single_xfer k dst src (record t { data_pool = ds; task_pool = ks })) distinct b'
          (unfold submit_single_xfer in omega (arith, ap length at'))
          (unfold submit_single_xfer in omega (arith, ap length at)) in
      subst Submitted (sym (ap (λ p. next p t.data_pool) at ∙ ap (next (k ∷ ks)) at')) (
        b'',
        n ∙ unfold submit_single_xfer in omega (arith, length-append t.flight (k ∷ [])),
        flag ∙ unfold submit_single_xfer in refl,
      )
    where
      one_of : (l : List ℕ) → 1 ≤ length l → (x : ℕ) × (xs : List ℕ) × (l ≡ x ∷ xs)
      one_of [] h = absurd (omega arith)
      one_of (x ∷ xs) h = (x, xs, refl)

      two_of : (l : List ℕ) → 2 ≤ length l → (x : ℕ) × (y : ℕ) × (xs : List ℕ) × (l ≡ x ∷ y ∷ xs)
      two_of [] h = absurd (omega arith)
      two_of (x ∷ []) h = absurd (omega arith)
      two_of (x ∷ y ∷ xs) h = (x, y, xs, refl)

      next : List ℕ → List ℕ → Chan
      next p d = submit_xfers queue_depth (
          submit_single_xfer (get p) (get (left d)) (get d)
            (record t { data_pool = left (left d); task_pool = left p }))

      Submitted : Chan → Type 0
      Submitted u =
          Balanced data_elements task_elements u
          × (length u.flight ≡ length t.flight + suc queue_depth)
          × (u.is_draining ≡ t.is_draining)
