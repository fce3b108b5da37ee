-- ===== src/Goto/Log.antt =====
-- What the programs of goto/simple and goto/locals have in common: a log of integers that is read
-- at the hash of each packet, and the `main` around the batches.
pub mod Hash
pub mod Total
use systemish.Base.{
  ℕ, ◌+◌, ◌-◌, ◌*◌, ◌/◌, ◌%◌, ◌^◌, if◌then◌else◌, add32, mul32, srem, minus_one, is_negative,
  for_below, fill, Option, none, some, Host, Exit, returned, exited, out_of_fuel, deref,
}

-- LOG_CAP, in integers; `& LOG_CAP_` is a mask of 27 ones.
abbrev pub log_cap : ℕ
log_cap = 128 * 1024 * 1024

abbrev pub compute : ℕ
compute = 32

-- `hash` of goto/simple/nogoto.c: `% 8` of an `int`
unfoldable pub hash_mod : ℕ → ℕ
hash_mod a = for_below compute (λ i ret. add32 ret (srem (mul32 i ret) 8)) a

-- `hash` of goto/locals/nogoto.c: `& 7`
unfoldable pub hash_and : ℕ → ℕ
hash_and a = for_below compute (λ i ret. add32 ret (mul32 i ret % 8)) a

-- `process_pkts_in_batch` on the log, the packets of the batch and `sum`
abbrev pub Process : Type 0
Process = (ℕ → ℕ) → (ℕ → ℕ) → ℕ → Option ℕ

-- The batches of `main`, the first `n` of them.
unfoldable pub batches : Process → (ℕ → ℕ) → (ℕ → ℕ) → ℕ → Option ℕ
batches process ht_log pkts n =
    for_below n
      (λ b sum. elim sum [ none ↦ none | some s ↦ process ht_log (λ k. pkts (8 * b + k)) s ])
      (some 0)

abbrev pub finish : Option ℕ → Exit ℕ
finish none = out_of_fuel
finish (some s) = returned s

-- `main`, over the `process_pkts_in_batch` of the file and its NUM_PKTS. The result is the `sum`
-- that it prints; the time that it prints beside it is left out.
unfoldable pub main_with : Process → ℕ → Host → Exit ℕ
main_with process num_pkts h =
    if is_negative h.sid
    then exited minus_one
    else deref h.segment λ log_memory. deref h.heap λ pkt_memory. finish (
        batches process (fill log_cap (λ i. i) log_memory)
          (fill num_pkts (λ i. h.rand i % log_cap) pkt_memory) (num_pkts / 8))
