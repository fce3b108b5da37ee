-- ===== src/Goto/Divergence/Same.antt =====
-- goto/synthetic-divergence/goto.c against goto/synthetic-divergence/nogoto.c.
use systemish.Base.{
  ℕ, zero, suc, slt, for_below, ◌+◌, ◌-◌, ◌%◌, ◌^◌, ◌<◌, ◌≡◌, refl, ap, ◌∙◌, sym, inl, inr, true,
  false, is_negative, minus_one, deref, exited, fill, ◌*◌, ◌/◌, ltb, ltb→lt, ◌==◌, Bool-cases, srem,
  add32, some, arith, for_below-sum, Host, if◌then◌else◌,
}
use systemish.Goto.Machine.{label_0, label_1, finished, Rip}
use systemish.Goto.Machine.Inv.{Task, Keeps, is_finished, run-total}
use systemish.Goto.Log.{Process, finish}
use systemish.Goto.Log.Total.{AddsValues, batches-eq}
use systemish.Goto.Divergence.Nogoto
use systemish.Goto.Divergence.Nogoto.{depth, hop, chase, Best, better, best, abs_macro, slot_arr}
use systemish.Goto.Divergence.Goto
use systemish.Goto.Divergence.Goto.{Locals, BestSlot, slot_turn, search}

chase-stop :
    (cache : ℕ → ℕ) (n jumper : ℕ)
    → (srem (hop cache jumper) 16 == 0) ≡ true
    → chase cache (suc n) jumper ≡ hop cache jumper
unfolding chase
chase-stop cache n jumper h = rw h

chase-on :
    (cache : ℕ → ℕ) (n jumper : ℕ)
    → (srem (hop cache jumper) 16 == 0) ≡ false
    → chase cache (suc n) jumper ≡ chase cache n (hop cache jumper)
unfolding chase
chase-on cache n jumper h = rw h

-- Both search a bucket alike.
for_below-best :
    (arr : ℕ → ℕ) (jumper n : ℕ) (b : Best) (s : BestSlot)
    → s.best_j ≡ b.best_j
    → s.max_diff ≡ b.max_diff
    → ((for_below n (λ k t. slot_turn arr jumper (k + 1) t) s).best_j
        ≡ (for_below n (λ k t. better arr jumper (k + 1) t) b).best_j)
      × ((for_below n (λ k t. slot_turn arr jumper (k + 1) t) s).max_diff
          ≡ (for_below n (λ k t. better arr jumper (k + 1) t) b).max_diff)
unfolding for_below slot_turn better
for_below-best arr jumper zero b s e f = (e, f)
for_below-best arr jumper (suc n) b s e f =
    let (same, diff) = for_below-best arr jumper n b s e f in
    turn (for_below n (λ k t. slot_turn arr jumper (k + 1) t) s)
      (for_below n (λ k t. better arr jumper (k + 1) t) b) same diff
  where
    turn :
        (t : BestSlot) (c : Best)
        → t.best_j ≡ c.best_j
        → t.max_diff ≡ c.max_diff
        → ((slot_turn arr jumper (n + 1) t).best_j ≡ (better arr jumper (n + 1) c).best_j)
          × ((slot_turn arr jumper (n + 1) t).max_diff ≡ (better arr jumper (n + 1) c).max_diff)
    turn t c same diff =
        elim (Bool-cases (slt c.max_diff (srem (abs_macro (arr (n + 1)) jumper) 8))) [
          | inl more ↦ rw (diff, more) (refl, refl)
          | inr less ↦ rw (diff, less) (same, refl)
        ]

search-hop : (cache : ℕ → ℕ) (jumper : ℕ) → search cache jumper ≡ hop cache jumper
unfolding search hop best slot_arr
search-hop cache jumper =
    ap (slot_arr cache jumper) (for_below-best (slot_arr cache jumper) jumper 15 _ _ refl refl).0

module _ (cache pkt_lo : ℕ → ℕ) where
  abbrev value : ℕ → Rip → Locals → ℕ
  value i label_0 a = chase cache depth (pkt_lo i)
  value i label_1 a = chase cache (suc (depth - (a.i + 1))) a.jumper
  value i finished a = 0

  abbrev left : Rip → Locals → ℕ
  left label_0 a = 3
  left label_1 a = suc (depth - (a.i + 1))
  left finished a = 0

  body-Keeps :
      (i s : ℕ) (a : Locals)
      → Keeps value left i s label_1 a (Goto.block cache pkt_lo label_1 i s a)
  unfolding Goto.block chase
  body-Keeps i s a =
      rw (search-hop cache a.jumper) (elim (Bool-cases (srem (hop cache a.jumper) 16 == 0)) [
        | inl stop ↦
            rw stop (ap (λ t. add32 s t) (sym (chase-stop cache _ a.jumper stop)), omega arith)
        | inr on ↦ elim (Bool-cases (ltb (a.i + 1) depth)) [
          | inl more ↦
              let lt = ltb→lt (a.i + 1) depth more in
              let e : suc (depth - (a.i + 1 + 1)) ≡ depth - (a.i + 1) = omega arith in
              rw (on, more)
                (
                  refl,
                  ap (λ n. chase cache n (hop cache a.jumper)) e
                      ∙ sym (chase-on cache _ a.jumper on),
                  omega arith,
                )
          | inr last ↦
              let e : 0 ≡ depth - (a.i + 1) = ground (arith, last) in
              rw (on, last)
                (
                  ap (λ t. add32 s t)
                      (ap (λ n. chase cache n (hop cache a.jumper)) e
                        ∙ sym (chase-on cache _ a.jumper on)),
                  omega arith,
                )
        ]
      ])

  keeps :
      (i s : ℕ) (r : Rip) (a : Locals)
      → is_finished r ≡ false
      → Keeps value left i s r a (Goto.block cache pkt_lo r i s a)
  unfolding Goto.block
  keeps i s label_0 a h = (refl, refl, omega arith)
  keeps i s label_1 a h = body-Keeps i s a
  keeps i s finished a h = cc

  task : Task (Goto.block cache pkt_lo)
  task = record { value = value; left = left; keeps = keeps }

-- What a packet contributes.
abbrev final : (ℕ → ℕ) → ℕ → ℕ
final cache a = chase cache depth a

abbrev plain : Process
plain cache pkt_lo s = some (Nogoto.process_pkts_in_batch cache pkt_lo s)

plain-AddsValues : AddsValues final plain
unfolding Nogoto.process_pkts_in_batch
plain-AddsValues cache pkt_lo s h = ap some (for_below-sum 8 _ s h)

switching-AddsValues :
    (garbage : ℕ → Locals) → AddsValues final (Goto.process_pkts_in_batch garbage)
unfolding Goto.process_pkts_in_batch task
switching-AddsValues garbage cache pkt_lo s h =
    run-total (Goto.block cache pkt_lo) (task cache pkt_lo) 25 3 garbage s h (λ a. omega arith)
      (omega arith)

-- For every cache, batch of packets and `sum`, the goto form returns within its fuel, with the
-- value of the plain loop, whatever its local arrays held before. `sum` is below 2 ^ 32.
pub process_diverging-process_nogoto :
    (garbage : ℕ → Locals) (cache pkt_lo : ℕ → ℕ) (s : ℕ)
    → s < 2 ^ 32
    → Goto.process_pkts_in_batch garbage cache pkt_lo s
      ≡ some (Nogoto.process_pkts_in_batch cache pkt_lo s)
process_diverging-process_nogoto garbage cache pkt_lo s h =
    switching-AddsValues garbage cache pkt_lo s h ∙ sym (plain-AddsValues cache pkt_lo s h)

-- On every host, the failing ones included, goto/synthetic-divergence/goto.c ends as
-- goto/synthetic-divergence/nogoto.c does.
pub main_diverging-main_nogoto :
    (garbage : ℕ → Locals) (h : Host) → Goto.main garbage h ≡ Nogoto.main h
unfolding Goto.main Nogoto.main Nogoto.main_with
main_diverging-main_nogoto garbage h = λ i.
    if is_negative h.sid
    then exited minus_one
    else deref h.segment λ memory. deref h.heap λ pkt_memory. finish (
        batches-eq final _ plain (switching-AddsValues garbage) plain-AddsValues
          (Nogoto.fill_cache Nogoto.num_bs h.rand memory)
          (fill Nogoto.num_pkts
            (λ k. h.rand (Nogoto.slots_per_bkt * Nogoto.num_bs + k) % Nogoto.num_bs) pkt_memory)
          (Nogoto.num_pkts / 8) i)
