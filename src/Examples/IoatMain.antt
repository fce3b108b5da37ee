-- ===== src/Examples/IoatMain.antt =====
-- The options, the workers and the result of ioat/bench.cc at concrete inputs.
use systemish.Base.{
  ℕ, zero, suc, ◌*◌, ◌%◌, ◌^◌, ◌≤◌, ◌≡◌, ◌≢◌, ◌↔◌, refl, arith, ◌==◌, if◌then◌else◌, Bool, true,
  false, List, [], ◌∷◌, length, All, some, none, minus_one,
}
use systemish.Ioat.{Chan, new_chan}
use systemish.Ioat.Config.{
  UserConfig, Opt, accepted, parse_args, parse_args-divisor, construct_user_config,
}
use systemish.Ioat.Setup.{
  Entry, Worker, Supply, associate_workers_with_chan, register_workers, Freed, worker, detached,
}
use systemish.Ioat.Balance.{Shares, ctx_at, chan_at, associate-Shares}
use systemish.Ioat.Totals.{dump_result, dump_result_iff}
use systemish.Ioat.Main.{Env, Ended, cleaned, main, cores_of}
use systemish.Ioat.Cleanup.{Gives, recorded, main-Gives}

-- -n 3 -o 64
abbrev opts : List Opt
opts = Opt.n 3 ∷ Opt.o 64 ∷ []

abbrev config : UserConfig
config = record {
  xfer_size_bytes = 64;
  ioat_chan_num = 3;
  queue_depth = 256;
  time_in_sec = 10;
  verify = false;
  core_mask = 48 ∷ 120 ∷ 49 ∷ [];
}

opts_accepted : parse_args opts ≡ accepted config
unfolding parse_args construct_user_config
opts_accepted = refl

parse_args-divisor_example :
    (config.time_in_sec ≢ 0)
    × ((config.time_in_sec * 1024 * 1024) % 2 ^ 64 ≢ 0)
    × (config.xfer_size_bytes ≢ 0)
    × (config.queue_depth ≢ 0)
parse_args-divisor_example =
    parse_args-divisor opts config (omega arith, (omega arith, tt)) opts_accepted

-- Every call succeeds.
abbrev supply : ℕ → Supply
supply i = record { memory = true; data_pool = some (1 ∷ 2 ∷ []); task_pool = some (3 ∷ []) }

abbrev first : Worker
first = record { core = 2; ctx = [] }

abbrev second : Worker
second = record { core = 0; ctx = [] }

abbrev three : List ℕ
three = 11 ∷ 12 ∷ 13 ∷ []

no_entries : (j : ℕ) → ctx_at j (first ∷ second ∷ []) ≡ []
no_entries zero = refl
no_entries (suc zero) = refl
no_entries (suc (suc j)) = refl

associate-Shares_example :
    let out = associate_workers_with_chan supply three (first ∷ second ∷ []) in
    (out.rc ≡ 0) × Shares (λ m. chan_at m three) 2 3 out.workers
associate-Shares_example =
    associate-Shares supply three first (second ∷ []) (λ i. (refl, 1 ∷ 2 ∷ [], 3 ∷ [], refl, refl))
      no_entries

-- A channel with two failed transfers.
abbrev failing : Entry
failing = record {
  chan = 11;
  ioat_chan_id = 0;
  state = record (new_chan [] []) { xfer_failed = 2 };
}

abbrev busy : List Worker
busy = record { core = 2; ctx = failing ∷ [] } ∷ second ∷ []

dump_result_iff_example :
    ((dump_result config busy).rc ≡ 0 ↔ All (λ w. All (λ t. t.state.xfer_failed ≡ 0) w.ctx) busy)
    × ((dump_result config busy).rc ≤ 1)
dump_result_iff_example = dump_result_iff config busy (omega arith)

-- Two channels, two passes.
abbrev during : List (ℕ → List Bool)
during = (λ i. false ∷ []) ∷ (λ i. if i == 0 then [] else true ∷ []) ∷ []

abbrev after : ℕ → List (List Bool)
after i = (false ∷ false ∷ []) ∷ []

abbrev channels : List Chan
channels = new_chan (1 ∷ 2 ∷ 3 ∷ 4 ∷ []) (5 ∷ 6 ∷ []) ∷ new_chan (7 ∷ 8 ∷ []) (9 ∷ []) ∷ []

-- Two cores and three channels; there is no memory for the pools of the third.
abbrev env : Env
env = record {
  init_ok = true;
  cores = (0, true) ∷ (2, true) ∷ [];
  found = (11, true) ∷ (12, true) ∷ (13, true) ∷ [];
  probe_ok = true;
  supply = λ i. record {
    memory = true;
    data_pool = if i == 2 then none else some (1 ∷ 2 ∷ []);
    task_pool = some (3 ∷ []);
  };
  current_core = 0;
  during = λ core. [];
  after = λ core i. [];
}

abbrev end : Ended
end = cleaned minus_one (
    Freed.pools 11
    ∷ worker 2
    ∷ Freed.pools 12
    ∷ worker 0
    ∷ detached 11
    ∷ detached 12
    ∷ detached 13
    ∷ [])

env_ends : main opts env ≡ some end
unfolding main construct_user_config
env_ends = refl

main-Gives_example :
    let made = register_workers env.cores [] in
    Gives (recorded config env made.1) (cores_of made.0) end
    × (length (recorded config env made.1) ≤ config.ioat_chan_num)
main-Gives_example = main-Gives opts env config end opts_accepted refl env_ends
