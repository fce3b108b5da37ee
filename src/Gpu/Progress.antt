-- ===== src/Gpu/Progress.antt =====
-- gpu/mtMappedMemory: a way to the end from each state.
use systemish.Base.{
  ℕ, zero, suc, ◌+◌, ◌-◌, ◌≤◌, ◌<◌, ◌≡◌, ◌≢◌, inl, inr, refl, sym, ◌∙◌, ap, update, ==_iff, arith,
  mul32, ℕ_discrete,
}
use mathlib.Core.Path.{subst}
use systemish.Gpu.Mapped.{
  num_pkts, iters, Shared, Cpu, clearing, filling, awaiting, checking, returned, mismatch, Lane,
  polling, reading, writing, packet, HostStep, clear, cleared, put, raise, non_zero, all_non_zero,
  equal, next, last, KernelStep, raised, fetch, store, World, zero_at, differ, host, kernel, Steps,
  none_yet, then_one, Reachable,
}
use systemish.Gpu.Handshake.{reply-pos, Doing, At, Inv, Steps-Inv, Reachable-Inv}

then_all : {s t u : World} → Steps s t → Steps t u → Steps s u
then_all a none_yet = a
then_all a (then_one b st) = then_one (then_all a b) st

-- Some steps from `s` bring the host to `p`.
abbrev Gets : World → Cpu → Type 0
Gets s p = (t : World) × Steps s t × (t.cpu ≡ p)

-- The indices of the loops stay in range.
abbrev InLoop : Cpu → Type 0
InLoop (clearing k j) = j ≤ num_pkts
InLoop (filling k j) = j ≤ num_pkts
InLoop (awaiting k j) = j ≤ num_pkts
InLoop (checking k j) = j ≤ num_pkts
InLoop returned = Unit {0}
InLoop mismatch = Unit {0}

host-InLoop : {m m' : Shared} {p p' : Cpu} → HostStep m p m' p' → InLoop p'
host-InLoop (clear h) = omega (arith, h)
host-InLoop cleared = omega arith
host-InLoop (put h) = omega (arith, h)
host-InLoop raise = omega arith
host-InLoop (non_zero h ne) = omega (arith, h)
host-InLoop (zero_at h z) = omega arith
host-InLoop all_non_zero = omega arith
host-InLoop (equal h e) = omega (arith, h)
host-InLoop (differ h ne) = tt
host-InLoop (next h) = omega arith
host-InLoop (last e) = tt

Steps-InLoop : {s t : World} → Steps s t → InLoop s.cpu → InLoop t.cpu
Steps-InLoop none_yet h = h
Steps-InLoop (then_one r (host st)) h = host-InLoop st
Steps-InLoop (then_one r (kernel i low st)) h = Steps-InLoop r h

here : (s : World) (p : Cpu) → s.cpu ≡ p → Inv s → At p s.shared s.lanes
here s p e inv = subst (λ q. At q s.shared s.lanes) e inv

chain :
    (s : World) (p q : Cpu)
    → Inv s
    → Gets s p
    → ((t : World) → Inv t → t.cpu ≡ p → Gets t q)
    → Gets s q
chain s p q inv (t, a, e) f = let (u, b, e') = f t (Steps-Inv a inv) e in (u, then_all a b, e')

one : (s : World) (p q : Cpu) {m : Shared} → s.cpu ≡ p → HostStep s.shared p m q → Gets s q
one s p q {m} e st = (
  record { shared = m; cpu = q; lanes = s.lanes },
  then_one none_yet (host (subst (λ r. HostStep s.shared r m q) (sym e) st)),
  refl,
)

-- A loop of the host, each turn of which can be made.
turns :
    (place : ℕ → Cpu)
    → ((j : ℕ) (s : World) → j < num_pkts → Inv s → s.cpu ≡ place j → Gets s (place (suc j)))
    → (d j : ℕ) (s : World) → j + d ≡ num_pkts
    → Inv s
    → s.cpu ≡ place j
    → Gets s (place num_pkts)
turns place turn zero j s n inv e = (s, none_yet, e ∙ ap place (omega (arith, n)))
turns place turn (suc d) j s n inv e =
    chain s (place (suc j)) (place num_pkts) inv (turn j s (omega (arith, n)) inv e)
      (λ t i e'. turns place turn d (suc j) t (omega (arith, n)) i e')

to_end :
    (place : ℕ → Cpu)
    → ((j : ℕ) (s : World) → j < num_pkts → Inv s → s.cpu ≡ place j → Gets s (place (suc j)))
    → (j : ℕ) (s : World) → j ≤ num_pkts
    → Inv s
    → s.cpu ≡ place j
    → Gets s (place num_pkts)
to_end place turn j s h = turns place turn (num_pkts - j) j s (omega (arith, h))

module _ (k i : ℕ) (h : i < num_pkts) where
  -- Thread `i` can bring its answer while the host waits for it.
  abbrev Answers : World → Type 0
  Answers s = (t : World) × Steps s t × (t.cpu ≡ awaiting k i) × (t.shared.b i ≢ 0)

  -- A step of the thread, and then its answer.
  after_step :
      (s : World) (l l' : Lane) (m : Shared)
      → Inv s
      → s.cpu ≡ awaiting k i
      → s.lanes i ≡ l
      → KernelStep i s.shared l m l'
      → ((t : World) → Inv t → t.cpu ≡ awaiting k i → t.lanes i ≡ l' → Answers t)
      → Answers s
  after_step s l l' m inv e at st f =
      let t : World = record { shared = m; cpu = s.cpu; lanes = update s.lanes i l' } in
      let go : Steps s t =
        then_one none_yet (kernel i h (subst (λ x. KernelStep i s.shared x m l') (sym at) st)) in
      let (u, a, p, ne) = f t (Steps-Inv go inv) e (rw ((==_iff i i).1 refl) refl) in
      (u, then_all go a, p, ne)

  from_writing :
      (s : World) (v : ℕ)
      → Inv s
      → s.cpu ≡ awaiting k i
      → s.lanes i ≡ writing k v
      → v ≡ packet k i
      → Answers s
  from_writing s v inv e at same =
      let m : Shared = record s.shared { b = update s.shared.b i (mul32 v 2) } in
      let t : World = record {
        shared = m;
        cpu = s.cpu;
        lanes = update s.lanes i (polling (suc k));
      } in
      (
        t,
        then_one none_yet
            (kernel i h (subst (λ x. KernelStep i s.shared x m (polling (suc k))) (sym at) store)),
        e,
        rw ((==_iff i i).1 refl) (subst (λ x. mul32 x 2 ≢ 0) (sym same) (reply-pos k i h)),
      )

  from_reading : (s : World) → Inv s → s.cpu ≡ awaiting k i → s.lanes i ≡ reading k → Answers s
  from_reading s inv e at =
      after_step s (reading k) (writing k (s.shared.a i)) s.shared inv e at fetch (λ t inv' e' at'.
        from_writing t (s.shared.a i) inv' e' at' ((here s (awaiting k i) e inv).0.sent i h))

  from_polling : (s : World) → Inv s → s.cpu ≡ awaiting k i → s.lanes i ≡ polling k → Answers s
  from_polling s inv e at =
      let d = (here s (awaiting k i) e inv).0 in
      after_step s (polling k) (reading k) s.shared inv e at
        (raised d.low (λ f. omega (arith, f, d.flag_at, d.low)))
        (λ t inv' e' at'. from_reading t inv' e' at')

  from_lane :
      (s : World)
      → Inv s
      → s.cpu ≡ awaiting k i
      → s.shared.b i ≡ 0
      → (l : Lane) → s.lanes i ≡ l
      → Doing k i (s.shared.b i) l
      → Answers s
  from_lane s inv e z (polling n) at (inl (same, w)) = from_polling s inv e (at ∙ ap polling same)
  from_lane s inv e z (polling n) at (inr (same, w)) = absurd (reply-pos k i h (sym w ∙ z))
  from_lane s inv e z (reading n) at (same, w) = from_reading s inv e (at ∙ ap reading same)
  from_lane s inv e z (writing n v) at (same, w, x) =
      from_writing s v inv e (at ∙ ap (λ n. writing n v) same) x

  await_turn : (s : World) → Inv s → s.cpu ≡ awaiting k i → Gets s (awaiting k (suc i))
  await_turn s inv e = elim (ℕ_discrete (s.shared.b i) 0) [
    | no ne ↦ one s (awaiting k i) (awaiting k (suc i)) e (non_zero h ne)
    | yes z ↦
        let (t, a, e', ne) =
          from_lane s inv e z (s.lanes i) refl ((here s (awaiting k i) e inv).0.doing i h) in
        let (u, b, p) = one t (awaiting k i) (awaiting k (suc i)) e' (non_zero h ne) in
        (u, then_all a b, p)
  ]

-- From a place in an iteration to the end of it.
check_ends :
    (k j : ℕ) (s : World)
    → j ≤ num_pkts
    → Inv s
    → s.cpu ≡ checking k j
    → Gets s (checking k num_pkts)
check_ends k =
    to_end (λ j. checking k j)
      (λ j s h inv e.
        let a = here s (checking k j) e inv in
        one s (checking k j) (checking k (suc j)) e
          (equal h (a.answered j h ∙ ap (λ x. mul32 x 2) (sym (a.sent j h)))))

await_ends :
    (k j : ℕ) (s : World)
    → j ≤ num_pkts
    → Inv s
    → s.cpu ≡ awaiting k j
    → Gets s (checking k num_pkts)
await_ends k j s h inv e =
    chain s (awaiting k num_pkts) (checking k num_pkts) inv
      (to_end (λ j. awaiting k j) (λ i s p. await_turn k i p s) j s h inv e)
      (λ t i f.
        chain t (checking k 0) (checking k num_pkts) i
          (one t (awaiting k num_pkts) (checking k 0) f all_non_zero)
          (λ u. check_ends k 0 u (omega arith)))

fill_ends :
    (k j : ℕ) (s : World)
    → j ≤ num_pkts
    → Inv s
    → s.cpu ≡ filling k j
    → Gets s (checking k num_pkts)
fill_ends k j s h inv e =
    chain s (filling k num_pkts) (checking k num_pkts) inv
      (to_end (λ j. filling k j) (λ j s p i f. one s (filling k j) (filling k (suc j)) f (put p)) j
        s h inv e)
      (λ t i f.
        chain t (awaiting k 0) (checking k num_pkts) i
          (one t (filling k num_pkts) (awaiting k 0) f raise) (λ u. await_ends k 0 u (omega arith)))

clear_ends :
    (k j : ℕ) (s : World)
    → j ≤ num_pkts
    → Inv s
    → s.cpu ≡ clearing k j
    → Gets s (checking k num_pkts)
clear_ends k j s h inv e =
    chain s (clearing k num_pkts) (checking k num_pkts) inv
      (to_end (λ j. clearing k j)
        (λ j s p i f. one s (clearing k j) (clearing k (suc j)) f (clear p)) j s h inv e)
      (λ t i f.
        chain t (filling k 0) (checking k num_pkts) i
          (one t (clearing k num_pkts) (filling k 0) f cleared)
          (λ u. fill_ends k 0 u (omega arith)))

-- From the end of an iteration through all that are left.
rest_ends :
    (d k : ℕ) (s : World)
    → suc k + d ≡ iters
    → Inv s
    → s.cpu ≡ checking k num_pkts
    → Gets s returned
rest_ends zero k s n inv e = one s (checking k num_pkts) returned e (last (omega (arith, n)))
rest_ends (suc d) k s n inv e =
    chain s (clearing (suc k) 0) returned inv
      (one s (checking k num_pkts) (clearing (suc k) 0) e (next (omega (arith, n))))
      (λ t i f.
        chain t (checking (suc k) num_pkts) returned i (clear_ends (suc k) 0 t (omega arith) i f)
          (λ u. rest_ends d (suc k) u (omega (arith, n))))

-- From every state that the program reaches, some steps bring `gpu_run` to its return.
pub handshake-returns : (s : World) → Reachable s → (t : World) × Steps s t × (t.cpu ≡ returned)
handshake-returns s r = go s.cpu refl
  where
    inv : Inv s
    inv = Reachable-Inv r

    finish : (k : ℕ) → k < iters → Gets s (checking k num_pkts) → Gets s returned
    finish k low g =
        chain s (checking k num_pkts) returned inv g
          (λ t. rest_ends (iters - suc k) k t (omega (arith, low)))

    loops : (p : Cpu) → s.cpu ≡ p → InLoop p
    loops p e = subst InLoop e (Steps-InLoop r (omega arith))

    go : (p : Cpu) → s.cpu ≡ p → Gets s returned
    go (clearing k j) e =
        finish k (here s (clearing k j) e inv).0.low (clear_ends k j s (loops _ e) inv e)
    go (filling k j) e =
        finish k (here s (filling k j) e inv).0.low (fill_ends k j s (loops _ e) inv e)
    go (awaiting k j) e =
        finish k (here s (awaiting k j) e inv).0.low (await_ends k j s (loops _ e) inv e)
    go (checking k j) e =
        finish k (here s (checking k j) e inv).low (check_ends k j s (loops _ e) inv e)
    go returned e = (s, none_yet, e)
    go mismatch e = elim (here s mismatch e inv) [ ]
