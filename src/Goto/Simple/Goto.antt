-- ===== src/Goto/Simple/Goto.antt =====
-- goto/simple/goto.c
use systemish.Base.{ℕ, ◌*◌, ◌%◌, add32, Option, Host, Exit}
use systemish.Goto.Machine.{Rip, label_0, label_1, finished, Outcome, pss, falls, run, start}
use systemish.Goto.Log.{log_cap, hash_mod, main_with}

abbrev pub num_pkts : ℕ
num_pkts = 16 * 1024 * 1024

unfoldable pub hash : ℕ → ℕ
hash = hash_mod

-- The code from a label to the next switch point; the local is `mem_addr[I]`.
unfoldable pub block : (ℕ → ℕ) → (ℕ → ℕ) → Rip → ℕ → ℕ → ℕ → Outcome ℕ
block ht_log pkt_lo label_0 index sum mem_addr = pss label_1 (hash (pkt_lo index) % log_cap)
block ht_log pkt_lo label_1 index sum mem_addr = falls mem_addr (add32 sum (ht_log mem_addr))
block ht_log pkt_lo finished index sum mem_addr = falls mem_addr sum

-- Eight packets of two stretches each: 17 jumps are enough.
abbrev pub fuel : ℕ
fuel = 17

-- `garbage` is what the array `mem_addr` holds before it is written.
unfoldable pub process_pkts_in_batch : (ℕ → ℕ) → (ℕ → ℕ) → (ℕ → ℕ) → ℕ → Option ℕ
process_pkts_in_batch garbage ht_log pkt_lo sum = run (block ht_log pkt_lo) fuel (start garbage sum)

unfoldable pub main : (ℕ → ℕ) → Host → Exit ℕ
main garbage = main_with (process_pkts_in_batch garbage) num_pkts
