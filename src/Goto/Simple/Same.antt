-- ===== src/Goto/Simple/Same.antt =====
-- goto/simple/goto.c and goto/simple/manual.c against goto/simple/nogoto.c.
use systemish.Base.{
  ℕ, ◌+◌, ◌%◌, ◌^◌, ◌<◌, ◌≡◌, refl, ap, ◌∙◌, sym, false, is_negative, some, arith, fill, fill-below,
  for_below-sum, sum_below, sum_below-ext, Host, returned,
}
use systemish.Goto.Machine.{label_0, label_1, finished, Rip}
use systemish.Goto.Machine.Inv.{Task, Keeps, is_finished, run-total}
use systemish.Goto.Log.{log_cap, hash_mod, Process}
use systemish.Goto.Log.Hash.{hash_mod-hash_and}
use systemish.Goto.Log.Total.{AddsValues, entry_at, main_with-eq, main_with-sum}
use systemish.Goto.Simple.Nogoto
use systemish.Goto.Simple.Goto
use systemish.Goto.Simple.Manual

abbrev address : ℕ → ℕ
address a = hash_mod a % log_cap

module _ (ht_log pkt_lo : ℕ → ℕ) where
  abbrev value : ℕ → Rip → ℕ → ℕ
  value i label_0 a = ht_log (address (pkt_lo i))
  value i label_1 a = ht_log a
  value i finished a = 0

  abbrev left : Rip → ℕ → ℕ
  left label_0 a = 2
  left label_1 a = 1
  left finished a = 0

  keeps :
      (i s : ℕ) (r : Rip) (a : ℕ)
      → is_finished r ≡ false
      → Keeps value left i s r a (Goto.block ht_log pkt_lo r i s a)
  unfolding Goto.block Goto.hash
  keeps i s label_0 a h = (refl, refl, omega arith)
  keeps i s label_1 a h = (refl, omega arith)
  keeps i s finished a h = cc

  task : Task (Goto.block ht_log pkt_lo)
  task = record { value = value; left = left; keeps = keeps }

abbrev plain : Process
plain ht_log pkt_lo s = some (Nogoto.process_pkts_in_batch ht_log pkt_lo s)

plain-AddsValues : AddsValues (entry_at address) plain
unfolding Nogoto.process_pkts_in_batch
plain-AddsValues ht_log pkt_lo s h = ap some (for_below-sum 8 _ s h)

switching-AddsValues :
    (garbage : ℕ → ℕ) → AddsValues (entry_at address) (Goto.process_pkts_in_batch garbage)
unfolding Goto.process_pkts_in_batch task
switching-AddsValues garbage ht_log pkt_lo s h =
    run-total (Goto.block ht_log pkt_lo) (task ht_log pkt_lo) 17 2 garbage s h (λ a. omega arith)
      (omega arith)

-- For every log, batch of packets and `sum`, the goto form of `process_pkts_in_batch` returns
-- within its fuel, with the value of the plain loop, whatever its local array held before. `sum` is
-- below 2 ^ 32.
pub process_goto-process_nogoto :
    (garbage ht_log pkt_lo : ℕ → ℕ) (s : ℕ)
    → s < 2 ^ 32
    → Goto.process_pkts_in_batch garbage ht_log pkt_lo s
      ≡ some (Nogoto.process_pkts_in_batch ht_log pkt_lo s)
process_goto-process_nogoto garbage ht_log pkt_lo s h =
    switching-AddsValues garbage ht_log pkt_lo s h ∙ sym (plain-AddsValues ht_log pkt_lo s h)

-- On every host, the failing ones included, goto/simple/goto.c ends as goto/simple/nogoto.c does.
pub main_goto-main_nogoto : (garbage : ℕ → ℕ) (h : Host) → Goto.main garbage h ≡ Nogoto.main h
unfolding Goto.main Nogoto.main
main_goto-main_nogoto garbage h =
    main_with-eq (entry_at address) _ plain (switching-AddsValues garbage) plain-AddsValues
      Goto.num_pkts h

-- If the calls of the host succeed, goto/simple/nogoto.c prints the sum, modulo 2 ^ 32, of the
-- log addresses of its packets.
pub main_nogoto-sum :
    (h : Host) {log_memory pkt_memory : ℕ → ℕ}
    → is_negative h.sid ≡ false
    → h.segment ≡ some log_memory
    → h.heap ≡ some pkt_memory
    → Nogoto.main h
      ≡ returned (sum_below Nogoto.num_pkts (λ i. hash_mod (h.rand i % log_cap) % log_cap) % 2 ^ 32)
unfolding Nogoto.main
main_nogoto-sum h ok seg heap =
    main_with-sum address plain plain-AddsValues Nogoto.num_pkts h (omega arith) (λ a. omega arith)
      ok seg heap

-- On a batch of packets below LOG_CAP, the form of goto/simple/manual.c, which hashes the batch
-- first and looks it up then, returns what the plain loop of goto/simple/nogoto.c returns.
pub process_manual-process_nogoto :
    (garbage ht_log pkt_lo : ℕ → ℕ) (s : ℕ)
    → s < 2 ^ 32
    → ((i : ℕ) → i < 8 → pkt_lo i < log_cap)
    → Manual.process_pkts_in_batch garbage ht_log pkt_lo s
      ≡ Nogoto.process_pkts_in_batch ht_log pkt_lo s
unfolding Manual.process_pkts_in_batch Nogoto.process_pkts_in_batch Manual.hash
process_manual-process_nogoto garbage ht_log pkt_lo s h small =
    for_below-sum 8 _ s h
    ∙ ap (λ t. (s + t) % 2 ^ 32) (sum_below-ext 8 _ _ same)
    ∙ sym (for_below-sum 8 _ s h)
  where
    same :
        (i : ℕ)
        → i < 8
        → ht_log (fill 8 (λ k. Manual.hash (pkt_lo k) % log_cap) garbage i)
          ≡ ht_log (hash_mod (pkt_lo i) % log_cap)
    same i below = ap ht_log (
        fill-below _ garbage 8 i below
        ∙ ap (λ a. a % log_cap) (sym (hash_mod-hash_and (pkt_lo i) (small i below))))
