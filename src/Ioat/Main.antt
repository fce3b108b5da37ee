-- ===== src/Ioat/Main.antt =====
-- `main` of ioat/bench.cc, and what it gives back on each of its ways out.
use systemish.Base.{
  ℕ, suc, ◌==◌, ltb, not, Bool, if◌then◌else◌, List, [], ◌∷◌, ◌++◌, Option, some, ◌>>=◌, minus_one,
}
use systemish.Ioat.{Chan}
use systemish.Ioat.Config.{UserConfig, Opt, accepted, refused, exits, parse_args}
use systemish.Ioat.Setup.{
  Devices, no_devices, probe, Entry, Worker, Supply, register_workers, associate_workers_with_chan,
  Freed, pools, worker, detached, unregister_workers, ioat_exit,
}
use systemish.Ioat.Worker.{work_all}
use systemish.Ioat.Totals.{dump_result}

-- What the calls of SPDK and of the C library give.
pub record Env : Type 0 where
  pub init_ok : Bool
  pub cores : List (ℕ × Bool)  -- with whether `calloc` returns memory for the worker
  pub found : List (ℕ × Bool)  -- the channels, with whether there is memory for the device
  pub probe_ok : Bool
  pub supply : ℕ → Supply
  pub current_core : ℕ
  pub during : ℕ → List (ℕ → List Bool)  -- by core, what the passes find
  pub after : ℕ → ℕ → List (List Bool)  -- by core and channel, what the drain finds

-- How `main` ends.
pub data Ended : Type 0 where
  returns : ℕ → Ended  -- before there is anything to clean up
  exit_0 : Ended
  aborts : Ended  -- a failed assertion
  cleaned : ℕ → List Freed → Ended

-- The states of the channels of a list of entries.
abbrev pub states : List Entry → List Chan
states [] = []
states (t ∷ ts) = t.state ∷ states ts

abbrev pub with_states : List Entry → List Chan → List Entry
with_states [] us = []
with_states (t ∷ ts) [] = t ∷ ts
with_states (t ∷ ts) (u ∷ us) = record t { state = u } ∷ with_states ts us

-- All workers run `work_fn`, and `main` waits for them.
unfoldable pub work : UserConfig → Env → List Worker → Option (List Worker)
work g env [] = some []
work g env (w ∷ ws) =
    work_all g.verify g.queue_depth (env.during w.core) (env.after w.core) (states w.ctx) >>= λ us.
    work g env ws >>= λ rest. some (record w { ctx = with_states w.ctx us } ∷ rest)

-- The workers on the core of `main`.
abbrev pub masters : ℕ → List Worker → ℕ
masters core [] = 0
masters core (w ∷ ws) = if w.core == core then suc (masters core ws) else masters core ws

-- The code at `cleanup`.
unfoldable pub cleanup : ℕ → List Worker → List ℕ → Ended
unfolding unregister_workers ioat_exit
cleanup rc ws devices = cleaned rc (unregister_workers ws ++ ioat_exit devices)

-- From the launch of the workers on.
unfoldable pub launch : UserConfig → Env → List ℕ → List Worker → Option Ended
unfolding work cleanup dump_result
launch g env devices ws =
    if masters env.current_core ws == 1
    then (work g env ws >>= λ done. some (cleanup (dump_result g done).rc done devices))
    else some aborts

-- `if (g_user_config.ioat_chan_num > g_ioat_chan_num) …`
abbrev pub limited : UserConfig → ℕ → UserConfig
limited g num = if ltb num g.ioat_chan_num then record g { ioat_chan_num = num } else g

-- From the end of `ioat_init` on.
unfoldable pub with_devices : UserConfig → Env → Devices → List Worker → Option Ended
unfolding launch associate_workers_with_chan
with_devices g env s ws =
    if s.g_ioat_chan_num == 0
    then some (cleanup 0 ws s.g_devices)
    else (let out = associate_workers_with_chan env.supply s.g_devices ws in
        if out.rc == 0
        then launch (limited g s.g_ioat_chan_num) env s.g_devices out.workers
        else some (cleanup minus_one out.workers s.g_devices))

-- From `register_workers` on; before `ioat_init` there are no devices.
unfoldable pub with_workers : UserConfig → Env → List Worker × Bool → Option Ended
unfolding with_devices probe
with_workers g env (ws, complete) =
    if not complete
    then some (cleanup minus_one ws [])
    else (let s = probe g.ioat_chan_num env.found no_devices in
        if not env.probe_ok
        then some (cleanup minus_one ws s.g_devices)
        else with_devices g env s ws)

-- `none` is a run that waits forever.
unfoldable pub main : List Opt → Env → Option Ended
unfolding with_workers parse_args register_workers
main opts env = elim (parse_args opts) [
  | refused ↦ some (returns 1)
  | exits ↦ some exit_0
  | accepted g ↦
      if not env.init_ok
      then some (returns 1)
      else with_workers g env (register_workers env.cores [])
]

-- The cores of the workers, and of those that are freed; the devices that are detached.
abbrev pub cores_of : List Worker → List ℕ
cores_of [] = []
cores_of (w ∷ ws) = w.core ∷ cores_of ws

abbrev pub freed_workers : List Freed → List ℕ
freed_workers [] = []
freed_workers (pools c ∷ fs) = freed_workers fs
freed_workers (worker c ∷ fs) = c ∷ freed_workers fs
freed_workers (detached c ∷ fs) = freed_workers fs

abbrev pub detached_devices : List Freed → List ℕ
detached_devices [] = []
detached_devices (pools c ∷ fs) = detached_devices fs
detached_devices (worker c ∷ fs) = detached_devices fs
detached_devices (detached c ∷ fs) = c ∷ detached_devices fs
