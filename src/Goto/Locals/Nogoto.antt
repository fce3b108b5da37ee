-- ===== src/Goto/Locals/Nogoto.antt =====
-- goto/locals/nogoto.c
use systemish.Base.{ℕ, ◌*◌, ◌%◌, add32, for_below, some, Host, Exit}
use systemish.Goto.Machine.{batch_size}
use systemish.Goto.Log.{log_cap, hash_and, main_with}

abbrev pub num_pkts : ℕ
num_pkts = 16 * 1024 * 1024

unfoldable pub process_pkts_in_batch : (ℕ → ℕ) → (ℕ → ℕ) → ℕ → ℕ
process_pkts_in_batch ht_log pkt_lo sum =
    for_below batch_size
      (λ batch_index s. let a_1 = hash_and (pkt_lo batch_index) % log_cap in add32 s (ht_log a_1))
      sum

unfoldable pub main : Host → Exit ℕ
main = main_with (λ ht_log pkt_lo s. some (process_pkts_in_batch ht_log pkt_lo s)) num_pkts
