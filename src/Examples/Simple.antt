-- ===== src/Examples/Simple.antt =====
-- goto/simple at concrete inputs.
use systemish.Base.{ℕ, ◌*◌, ◌+◌, ◌≡◌, refl, arith, some, for_below}
use systemish.Goto.Log.{hash_mod}
use systemish.Goto.Machine.{run, turn, start, fpp_pss, next_index, end_code, fpp_set}
use systemish.Goto.Simple.Nogoto
use systemish.Goto.Simple.Goto
use systemish.Goto.Simple.Same.{process_goto-process_nogoto}

abbrev log : ℕ → ℕ
log i = i * 3

abbrev pkts : ℕ → ℕ
pkts i = 1000 * i + 3

process_goto-process_nogoto_example :
    Goto.process_pkts_in_batch (λ i. 9) log pkts 41
    ≡ some (Nogoto.process_pkts_in_batch log pkts 41)
process_goto-process_nogoto_example = process_goto-process_nogoto (λ i. 9) log pkts 41 (omega arith)

-- The first packets hash to these values.
hash_3 : hash_mod 3 ≡ 16
unfolding hash_mod for_below
hash_3 = refl

-- A batch, run to its end.
batch_run : Goto.process_pkts_in_batch (λ i. 9) log pkts 41 ≡ some 84425
unfolding Goto.process_pkts_in_batch run turn start Goto.block fpp_pss next_index end_code fpp_set
    Goto.hash hash_mod for_below
batch_run = refl
