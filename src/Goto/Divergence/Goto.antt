-- ===== src/Goto/Divergence/Goto.antt =====
-- goto/synthetic-divergence/goto.c
use systemish.Base.{
  ℕ, ◌+◌, ◌-◌, ◌*◌, slt, for_below, ◌==◌, ltb, if◌then◌else◌, add32, srem, Option, Host, Exit,
}
use systemish.Goto.Machine.{Rip, label_0, label_1, finished, Outcome, pss, falls, run, start}
use systemish.Goto.Divergence.Nogoto.{depth, slots_per_bkt, abs_macro, main_with}

-- The arrays that live across a switch; `arr`, `best_j`, `j` and `max_diff` are written again
-- after each.
pub record Locals : Type 0 where
  pub i : ℕ
  pub jumper : ℕ

-- The head of the loop over `i`.
unfoldable pub head : ℕ → Locals → Outcome Locals
head sum a = if ltb a.i depth then pss label_1 a else falls a (add32 sum a.jumper)

-- The slot with the greatest difference, `best_j[I]`, and that difference, `max_diff[I]`.
pub record BestSlot : Type 0 where
  pub best_j : ℕ
  pub max_diff : ℕ

-- The body of the loop over `j[I]`.
unfoldable pub slot_turn : (ℕ → ℕ) → ℕ → ℕ → BestSlot → BestSlot
unfolding abs_macro
slot_turn arr jumper j s =
    let diff : ℕ = srem (abs_macro (arr j) jumper) 8 in
    if slt s.max_diff diff then record { best_j = j; max_diff = diff } else s

-- From `arr[I] = …` to the new `jumper[I]`.
unfoldable pub search : (ℕ → ℕ) → ℕ → ℕ
unfolding slot_turn
search cache jumper =
    let arr : ℕ → ℕ = λ j. cache (slots_per_bkt * jumper + j) in
    let first : BestSlot = record { best_j = 0; max_diff = srem (abs_macro (arr 0) jumper) 8 } in
    arr (for_below (slots_per_bkt - 1) (λ k s. slot_turn arr jumper (k + 1) s) first).best_j

-- The body of the loop from `label_1`.
unfoldable pub body : (ℕ → ℕ) → ℕ → Locals → Outcome Locals
unfolding head search
body cache sum a =
    let next = search cache a.jumper in
    if srem next 16 == 0
    then falls (record a { jumper = next }) (add32 sum next)
    else head sum (record { i = a.i + 1; jumper = next })

unfoldable pub block : (ℕ → ℕ) → (ℕ → ℕ) → Rip → ℕ → ℕ → Locals → Outcome Locals
unfolding body head
block cache pkt_lo label_0 index sum a = head sum (record { i = 0; jumper = pkt_lo index })
block cache pkt_lo label_1 index sum a = body cache sum a
block cache pkt_lo finished index sum a = falls a sum

-- Eight packets of at most DEPTH + 1 stretches each.
abbrev pub fuel : ℕ
fuel = 25

unfoldable pub process_pkts_in_batch : (ℕ → Locals) → (ℕ → ℕ) → (ℕ → ℕ) → ℕ → Option ℕ
process_pkts_in_batch garbage cache pkt_lo sum = run (block cache pkt_lo) fuel (start garbage sum)

unfoldable pub main : (ℕ → Locals) → Host → Exit ℕ
main garbage = main_with (process_pkts_in_batch garbage)
