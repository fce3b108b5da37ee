-- ===== src/Examples/Divergence.antt =====
-- goto/synthetic-divergence at concrete inputs.
use systemish.Base.{ℕ, ◌*◌, ◌+◌, ◌%◌, ◌≡◌, arith, some, if◌then◌else◌, ltb}
use systemish.Goto.Divergence.Nogoto
use systemish.Goto.Divergence.Nogoto.{num_bs, slots_per_bkt, abs_macro, fill_cache}
use systemish.Goto.Divergence.Goto
use systemish.Goto.Divergence.Goto.{Locals}
use systemish.Goto.Divergence.Same.{process_diverging-process_nogoto}
use systemish.Goto.Divergence.Bounds.{process-SameInside}

abbrev cache : ℕ → ℕ
cache k = (k * 7 + 5) % num_bs

-- the same cache with other memory behind it
abbrev cache_and_more : ℕ → ℕ
cache_and_more k = if ltb k (slots_per_bkt * num_bs) then cache k else 3

abbrev pkts : ℕ → ℕ
pkts i = 1000 * i + 3

abbrev garbage : ℕ → Locals
garbage i = record { i = 77; jumper = i }

process_diverging-process_nogoto_example :
    Goto.process_pkts_in_batch garbage cache pkts 41
    ≡ some (Nogoto.process_pkts_in_batch cache pkts 41)
process_diverging-process_nogoto_example =
    process_diverging-process_nogoto garbage cache pkts 41 (omega arith)

process-SameInside_example :
    Nogoto.process_pkts_in_batch cache pkts 41 ≡ Nogoto.process_pkts_in_batch cache_and_more pkts 41
process-SameInside_example =
    process-SameInside cache cache_and_more pkts 41 (λ k h. omega arith) (λ k h. ground arith)
      (λ i h. omega arith)

abbrev low : ℕ
low = 3

abbrev high : ℕ
high = 10
