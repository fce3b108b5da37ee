-- ===== src/Ioat/Cleanup.antt =====
-- What `main` of ioat/bench.cc gives back.
use systemish.Base.{
  ℕ, zero, suc, ◌≤◌, ◌≡◌, refl, ap, ◌∙◌, ◌==◌, leb, Bool, true, false, if◌then◌else◌, List, [], ◌∷◌,
  ◌++◌, Option, some, none, ◌>>=◌, minus_one, Bool-cases, inl, inr, length, length-append, arith,
}
use mathlib.Core.Path.{subst}
use mathlib.Core.List.{append-nil}
use systemish.Ioat.{Chan, new_chan}
use systemish.Ioat.Config.{UserConfig, Opt, accepted, parse_args}
use systemish.Ioat.Setup.{
  Devices, no_devices, attach_cb, probe, Entry, Worker, Supply, Associated, register_workers,
  associate, give, associate_workers_with_chan, next_worker, Freed, pools, worker, detached,
  free_entries, unregister_workers, ioat_exit,
}
use systemish.Ioat.Worker.{work_all}
use systemish.Ioat.Totals.{dump_result}
use systemish.Ioat.Main.{
  Env, Ended, aborts, cleaned, states, with_states, work, masters, cleanup, launch, limited,
  with_devices, with_workers, main, cores_of, freed_workers, detached_devices,
}

freed_workers-append :
    (xs ys : List Freed) → freed_workers (xs ++ ys) ≡ freed_workers xs ++ freed_workers ys
freed_workers-append [] ys = refl
freed_workers-append (pools c ∷ xs) ys = freed_workers-append xs ys
freed_workers-append (worker c ∷ xs) ys = ap (λ l. c ∷ l) (freed_workers-append xs ys)
freed_workers-append (detached c ∷ xs) ys = freed_workers-append xs ys

detached_devices-append :
    (xs ys : List Freed) → detached_devices (xs ++ ys) ≡ detached_devices xs ++ detached_devices ys
detached_devices-append [] ys = refl
detached_devices-append (pools c ∷ xs) ys = detached_devices-append xs ys
detached_devices-append (worker c ∷ xs) ys = detached_devices-append xs ys
detached_devices-append (detached c ∷ xs) ys = ap (λ l. c ∷ l) (detached_devices-append xs ys)

entries-none :
    (ts : List Entry)
    → (freed_workers (free_entries ts) ≡ []) × (detached_devices (free_entries ts) ≡ [])
unfolding free_entries
entries-none [] = (refl, refl)
entries-none (t ∷ ts) = entries-none ts

exit-devices :
    (ds : List ℕ) → (freed_workers (ioat_exit ds) ≡ []) × (detached_devices (ioat_exit ds) ≡ ds)
unfolding ioat_exit
exit-devices [] = (refl, refl)
exit-devices (d ∷ ds) = let (a, b) = exit-devices ds in (a, ap (λ l. d ∷ l) b)

unregister-cores :
    (ws : List Worker)
    → (freed_workers (unregister_workers ws) ≡ cores_of ws)
      × (detached_devices (unregister_workers ws) ≡ [])
unfolding unregister_workers
unregister-cores [] = (refl, refl)
unregister-cores (w ∷ ws) =
    let (a, b) = unregister-cores ws in
    let (x, y) = entries-none w.ctx in
    (
      freed_workers-append (free_entries w.ctx) (worker w.core ∷ unregister_workers ws)
          ∙ (λ i. x i ++ w.core ∷ a i),
      detached_devices-append (free_entries w.ctx) (worker w.core ∷ unregister_workers ws)
          ∙ (λ i. y i ++ b i),
    )

-- All workers are freed, and the devices are detached, unless an assertion fails: a plain return or
-- an exit would leave them behind.
abbrev pub Gives : List ℕ → List ℕ → Ended → Type 0
Gives devices cores (cleaned rc freed) =
    (freed_workers freed ≡ cores) × (detached_devices freed ≡ devices)
Gives devices cores aborts = Unit {0}
Gives devices cores _ = ⊥

abbrev GivesIf : List ℕ → List ℕ → Option Ended → Type 0
GivesIf devices cores none = Unit {0}
GivesIf devices cores (some e) = Gives devices cores e

cleanup-Gives :
    (rc : ℕ) (ws : List Worker) (devices cores : List ℕ)
    → cores_of ws ≡ cores
    → Gives devices cores (cleanup rc ws devices)
unfolding cleanup
cleanup-Gives rc ws devices cores e =
    let (a, b) = unregister-cores ws in
    let (x, y) = exit-devices devices in
    (
      freed_workers-append (unregister_workers ws) (ioat_exit devices)
          ∙ (λ i. a i ++ x i)
          ∙ append-nil (cores_of ws)
          ∙ e,
      detached_devices-append (unregister_workers ws) (ioat_exit devices) ∙ (λ i. b i ++ y i),
    )

-- The workers after the work are on the same cores.
abbrev SameCores : List ℕ → Option (List Worker) → Type 0
SameCores cores none = Unit {0}
SameCores cores (some ws) = cores_of ws ≡ cores

work-cores :
    (g : UserConfig) (env : Env) (ws : List Worker) → SameCores (cores_of ws) (work g env ws)
unfolding work
work-cores g env [] = refl
work-cores g env (w ∷ ws) =
    go (work_all g.verify g.queue_depth (env.during w.core) (env.after w.core) (states w.ctx))
      (work g env ws) (work-cores g env ws)
  where
    go :
        (first : Option (List Chan)) (others : Option (List Worker))
        → SameCores (cores_of ws) others
        → SameCores (w.core ∷ cores_of ws) (
            first >>= λ us.
            others >>= λ rest. some (record w { ctx = with_states w.ctx us } ∷ rest))
    go none others h = tt
    go (some us) none h = tt
    go (some us) (some rest) h = ap (λ l. w.core ∷ l) h

give-cores : (at : ℕ) (t : Entry) (ws : List Worker) → cores_of (give at t ws) ≡ cores_of ws
unfolding give
give-cores at t [] = refl
give-cores zero t (w ∷ ws) = refl
give-cores (suc at) t (w ∷ ws) = ap (λ l. w.core ∷ l) (give-cores at t ws)

associate-cores :
    (supply : ℕ → Supply) (devices : List ℕ) (at i : ℕ) (ws : List Worker)
    → cores_of (associate supply devices at i ws).workers ≡ cores_of ws
unfolding associate
associate-cores supply [] at i ws = refl
associate-cores supply (chan ∷ rest) at i ws = elim (Bool-cases (supply i).memory) [
  | inr out ↦ rw out refl
  | inl got ↦ rw got (
      both (λ new. associate-cores supply rest (next_worker at ws) (suc i) (give at new ws))
        (supply i).data_pool (supply i).task_pool)
]
  where
    both :
        ((new : Entry)
          → cores_of (associate supply rest (next_worker at ws) (suc i) (give at new ws)).workers
            ≡ cores_of (give at new ws))
        → (d t : Option (List ℕ))
        → cores_of
            (elim d as (λ _. Associated) [
              | none ↦ record { rc = 1; workers = ws }
              | some elements ↦ elim t as (λ _. Associated) [
                | none ↦ record { rc = 1; workers = ws }
                | some tasks ↦ associate supply rest (next_worker at ws) (suc i) (
                    give at
                      (record { chan = chan; ioat_chan_id = i; state = new_chan elements tasks })
                      ws)
              ]
            ]).workers
          ≡ cores_of ws
    both more none t = refl
    both more (some elements) none = refl
    both more (some elements) (some tasks) =
        let new : Entry = record {
          chan = chan;
          ioat_chan_id = i;
          state = new_chan elements tasks;
        } in
        more new ∙ give-cores at new ws

launch-Gives :
    (g : UserConfig) (env : Env) (devices : List ℕ) (ws : List Worker)
    → GivesIf devices (cores_of ws) (launch g env devices ws)
unfolding launch
launch-Gives g env devices ws = elim (Bool-cases (masters env.current_core ws == 1)) [
  | inr none_or_two ↦ rw none_or_two tt
  | inl alone ↦ rw alone (go (work g env ws) (work-cores g env ws))
]
  where
    go :
        (r : Option (List Worker))
        → SameCores (cores_of ws) r
        → GivesIf devices
            (cores_of ws)
            (r >>= λ done. some (cleanup (dump_result g done).rc done devices))
    go none h = tt
    go (some done) h = cleanup-Gives (dump_result g done).rc done devices (cores_of ws) h

with_devices-Gives :
    (g : UserConfig) (env : Env) (s : Devices) (ws : List Worker)
    → GivesIf s.g_devices (cores_of ws) (with_devices g env s ws)
unfolding with_devices associate_workers_with_chan
with_devices-Gives g env s ws = elim (Bool-cases (s.g_ioat_chan_num == 0)) [
  | inl empty ↦ rw empty (cleanup-Gives 0 ws s.g_devices (cores_of ws) refl)
  | inr some_found ↦
      let out = associate env.supply s.g_devices 0 0 ws in
      let same = associate-cores env.supply s.g_devices 0 0 ws in
      rw some_found (elim (Bool-cases (out.rc == 0)) [
        | inl ok ↦ rw ok (
            subst
              (λ c.
                GivesIf s.g_devices c
                  (launch (limited g s.g_ioat_chan_num) env s.g_devices out.workers))
              same (launch-Gives (limited g s.g_ioat_chan_num) env s.g_devices out.workers))
        | inr bad ↦ rw bad (cleanup-Gives minus_one out.workers s.g_devices (cores_of ws) same)
      ])
]

-- The devices that `attach_cb` has recorded in `g_devices` when the cleanup starts.
abbrev pub recorded : UserConfig → Env → Bool → List ℕ
recorded g env complete =
    if complete then (probe g.ioat_chan_num env.found no_devices).g_devices else []

with_workers-Gives :
    (g : UserConfig) (env : Env) (ws : List Worker) (complete : Bool)
    → GivesIf (recorded g env complete) (cores_of ws) (with_workers g env (ws, complete))
unfolding with_workers
with_workers-Gives g env ws false = cleanup-Gives minus_one ws [] (cores_of ws) refl
with_workers-Gives g env ws true =
    let s = probe g.ioat_chan_num env.found no_devices in
    elim (Bool-cases env.probe_ok) [
      | inl ok ↦ rw ok (with_devices-Gives g env s ws)
      | inr bad ↦ rw bad (cleanup-Gives minus_one ws s.g_devices (cores_of ws) refl)
    ]

-- The list of devices has the length that is counted, at most the number asked for.
abbrev IsCounted : ℕ → Devices → Type 0
IsCounted limit s = (length s.g_devices ≡ s.g_ioat_chan_num) × (s.g_ioat_chan_num ≤ limit)

attach_cb-IsCounted :
    (limit ioat : ℕ) (dev : Bool) (s : Devices)
    → IsCounted limit s
    → IsCounted limit (attach_cb limit ioat dev s)
unfolding attach_cb
attach_cb-IsCounted limit ioat dev s (e, h) = elim (Bool-cases (leb limit s.g_ioat_chan_num)) [
  | inl full ↦ rw full (e, h)
  | inr room ↦ elim (Bool-cases dev) [
    | inr no_memory ↦ rw (room, no_memory) (e, h)
    | inl memory ↦
        rw (room, memory)
          (omega (arith, length-append s.g_devices (ioat ∷ []), e), ground (arith, room))
  ]
]

probe-IsCounted :
    (limit : ℕ) (found : List (ℕ × Bool)) (s : Devices)
    → IsCounted limit s
    → IsCounted limit (probe limit found s)
unfolding probe
probe-IsCounted limit [] s h = h
probe-IsCounted limit ((ioat, dev) ∷ found) s h =
    probe-IsCounted limit found (attach_cb limit ioat dev s)
      (attach_cb-IsCounted limit ioat dev s h)

-- If `parse_args` accepts the options and SPDK starts, then `main` ends, unless an assertion fails
-- or it waits forever, by a cleanup, never by a plain return: it frees each worker that was
-- registered, with those of an incomplete registration, once and in order, and detaches each device
-- that `attach_cb` has recorded once, in the order of the attachments; these devices are at most as
-- many as were asked for. Of the devices that `attach_cb` does not record, it detaches none.
pub main-Gives :
    (opts : List Opt) (env : Env) (g : UserConfig) (end : Ended)
    → parse_args opts ≡ accepted g
    → env.init_ok ≡ true
    → main opts env ≡ some end
    → let made = register_workers env.cores [] in
      Gives (recorded g env made.1) (cores_of made.0) end
      × (length (recorded g env made.1) ≤ g.ioat_chan_num)
unfolding main
main-Gives opts env g end e ok h =
    let made = register_workers env.cores [] in
    (
      subst (GivesIf (recorded g env made.1) (cores_of made.0)) (rw (main, e, ok) at h)
          (with_workers-Gives g env made.0 made.1),
      few made.1,
    )
  where
    few : (complete : Bool) → length (recorded g env complete) ≤ g.ioat_chan_num
    few false = omega arith
    few true =
        let (a, b) = probe-IsCounted g.ioat_chan_num env.found no_devices (refl, omega arith) in
        omega (arith, a, b)
