-- ===== src/Goto/Locals/Same.antt =====
-- goto/locals/goto.c against goto/locals/nogoto.c.
use systemish.Base.{ℕ, ◌%◌, ◌≡◌, refl, ap, ◌∙◌, some, for_below, for_below-sum, Host}
use systemish.Goto.Log.{log_cap, hash_and, Process}
use systemish.Goto.Log.Total.{AddsValues, entry_at, main_with-eq}
use systemish.Goto.Locals.Nogoto
use systemish.Goto.Locals.Goto

abbrev address : ℕ → ℕ
address a = hash_and a % log_cap

abbrev plain : Process
plain ht_log pkt_lo s = some (Nogoto.process_pkts_in_batch ht_log pkt_lo s)

plain-AddsValues : AddsValues (entry_at address) plain
unfolding Nogoto.process_pkts_in_batch
plain-AddsValues ht_log pkt_lo s h = ap some (for_below-sum 8 _ s h)

-- For every log, batch of packets and `sum`, the goto form of goto/locals falls off its end
-- within sixteen labels, with the value of the plain loop, whatever its local array held before.
pub process_fallthrough-process_nogoto :
    (garbage ht_log pkt_lo : ℕ → ℕ) (s : ℕ)
    → Goto.process_pkts_in_batch garbage ht_log pkt_lo s
      ≡ some (Nogoto.process_pkts_in_batch ht_log pkt_lo s)
unfolding Goto.process_pkts_in_batch Nogoto.process_pkts_in_batch for_below
process_fallthrough-process_nogoto garbage ht_log pkt_lo s = refl

-- On every host, the failing ones included, goto/locals/goto.c ends as goto/locals/nogoto.c does.
pub main_fallthrough-main_nogoto :
    (garbage : ℕ → ℕ) (h : Host) → Goto.main garbage h ≡ Nogoto.main h
unfolding Goto.main Nogoto.main
main_fallthrough-main_nogoto garbage h =
    main_with-eq (entry_at address) _ plain
      (λ ht_log pkt_lo s small.
        process_fallthrough-process_nogoto garbage ht_log pkt_lo s
        ∙ plain-AddsValues ht_log pkt_lo s small)
      plain-AddsValues Goto.num_pkts h
