-- ===== src/Goto/Simple/Manual.antt =====
-- goto/simple/manual.c: the addresses of a batch first, then its log accesses.
use systemish.Base.{ℕ, ◌*◌, ◌%◌, add32, for_below, fill, some, Host, Exit}
use systemish.Goto.Machine.{batch_size}
use systemish.Goto.Log.{log_cap, hash_and, main_with}

abbrev pub num_pkts : ℕ
num_pkts = 32 * 1024 * 1024

unfoldable pub hash : ℕ → ℕ
hash = hash_and

unfoldable pub process_pkts_in_batch : (ℕ → ℕ) → (ℕ → ℕ) → (ℕ → ℕ) → ℕ → ℕ
process_pkts_in_batch garbage ht_log pkt_lo sum =
    let mem_addr = fill batch_size (λ i. hash (pkt_lo i) % log_cap) garbage in
    for_below batch_size (λ batch_index s. add32 s (ht_log (mem_addr batch_index))) sum

unfoldable pub main : (ℕ → ℕ) → Host → Exit ℕ
main garbage =
    main_with (λ ht_log pkt_lo s. some (process_pkts_in_batch garbage ht_log pkt_lo s)) num_pkts
