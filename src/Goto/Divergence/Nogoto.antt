-- ===== src/Goto/Divergence/Nogoto.antt =====
-- goto/synthetic-divergence/nogoto.c, with param.h
use systemish.Base.{
  ℕ, zero, suc, ◌+◌, ◌*◌, ◌/◌, ◌%◌, ◌==◌, if◌then◌else◌, add32, sub32, mul32, srem, slt, minus_one,
  is_negative, update, for_below, fill, some, Host, Exit, exited, deref,
}
use systemish.Goto.Machine.{batch_size}
use systemish.Goto.Log.{Process, batches, finish}

abbrev pub slots_per_bkt : ℕ
slots_per_bkt = 16

abbrev pub depth : ℕ
depth = 2

abbrev pub num_pkts : ℕ
num_pkts = 16 * 1024 * 1024

-- NUM_BS; `& NUM_BS_` is a mask of 23 ones.
abbrev pub num_bs : ℕ
num_bs = 8 * 1024 * 1024

-- `ABS(a - b)`. The macro pastes its argument as it stands, so its second branch is
-- `-1 * a - b`.
unfoldable pub abs_macro : ℕ → ℕ → ℕ
abs_macro a b = if slt 0 (sub32 a b) then sub32 a b else sub32 (mul32 minus_one a) b

pub record Best : Type 0 where
  pub best_j : ℕ
  pub max_diff : ℕ

-- One round of the loop over the slots of a bucket.
unfoldable pub better : (ℕ → ℕ) → ℕ → ℕ → Best → Best
unfolding abs_macro
better arr jumper j b =
    if slt b.max_diff (srem (abs_macro (arr j) jumper) 8)
    then record { best_j = j; max_diff = srem (abs_macro (arr j) jumper) 8 }
    else b

-- The slot that the next jump takes; `j` runs from 1.
unfoldable pub best : (ℕ → ℕ) → ℕ → Best
unfolding better
best arr jumper =
    for_below 15 (λ k b. better arr jumper (k + 1) b)
      (record { best_j = 0; max_diff = srem (abs_macro (arr 0) jumper) 8 })

-- The segment holds the buckets one after the other.
unfoldable pub slot_arr : (ℕ → ℕ) → ℕ → ℕ → ℕ
slot_arr cache b j = cache (slots_per_bkt * b + j)

unfoldable pub hop : (ℕ → ℕ) → ℕ → ℕ
unfolding best slot_arr
hop cache jumper = let arr = slot_arr cache jumper in arr (best arr jumper).best_j

-- The loop over `i`, with the rounds that are left.
unfoldable pub chase : (ℕ → ℕ) → ℕ → ℕ → ℕ
chase cache zero jumper = jumper
chase cache (suc n) jumper =
    let next = hop cache jumper in
    let rest = chase cache n next in if srem next 16 == 0 then next else rest

unfoldable pub process_pkts_in_batch : (ℕ → ℕ) → (ℕ → ℕ) → ℕ → ℕ
process_pkts_in_batch cache pkt_lo sum =
    for_below batch_size (λ batch_index s. add32 s (chase cache depth (pkt_lo batch_index))) sum

-- The cache is filled bucket by bucket with indices into itself.
unfoldable pub fill_cache : ℕ → (ℕ → ℕ) → (ℕ → ℕ) → ℕ → ℕ
fill_cache n rand cache =
    for_below n
      (λ i c.
        for_below slots_per_bkt
          (λ j c'. update c' (slots_per_bkt * i + j) (rand (slots_per_bkt * i + j) % num_bs)) c)
      cache

-- `main` over the `process_pkts_in_batch` of the file. The calls of `rand` for the packets come
-- after those for the cache.
unfoldable pub main_with : Process → Host → Exit ℕ
main_with process h =
    if is_negative h.sid
    then exited minus_one
    else deref h.segment λ memory. deref h.heap λ pkt_memory. finish (
        batches process (fill_cache num_bs h.rand memory)
          (fill num_pkts (λ i. h.rand (slots_per_bkt * num_bs + i) % num_bs) pkt_memory)
          (num_pkts / 8))

unfoldable pub main : Host → Exit ℕ
main = main_with (λ cache pkt_lo s. some (process_pkts_in_batch cache pkt_lo s))
