-- ===== src/Goto/Locals/Goto.antt =====
-- goto/locals/goto.c
use systemish.Base.{
  ℕ, zero, suc, ◌*◌, ◌%◌, add32, ◌==◌, if◌then◌else◌, update, Option, none, some, Host, Exit,
}
use systemish.Goto.Machine.{next_index}
use systemish.Goto.Log.{log_cap, hash_and, main_with}

abbrev pub num_pkts : ℕ
num_pkts = 16 * 1024 * 1024

unfoldable pub hash : ℕ → ℕ
hash = hash_and

pub data Label : Type 0 where
  label_0 : Label
  label_1 : Label

-- The local variables, and the global `sum`.
pub record Frame : Type 0 where
  pub index : ℕ  -- `I`
  pub batch_rips : ℕ → Label
  pub a1 : ℕ → ℕ
  pub sum : ℕ

-- Where the control goes after the code of a label.
pub data Next : Type 0 where
  at : Label → Frame → Next
  returns : ℕ → Next

module _ (ht_log pkt_lo : ℕ → ℕ) where
  -- The code at `label_0` stores the address and saves `label_1`; if `I` wraps to 0 the control
  -- falls through to `label_1`. The code there returns if `I` wraps to 0.
  unfoldable pub code : Label → Frame → Next
  unfolding hash next_index
  code label_0 f =
      let g = record f {
        a1 = update f.a1 f.index (hash (pkt_lo f.index) % log_cap);
        batch_rips = update f.batch_rips f.index label_1;
        index = next_index f.index;
      } in
      if g.index == 0 then at label_1 g else at (g.batch_rips g.index) g
  code label_1 f =
      let g = record f { sum = add32 f.sum (ht_log (f.a1 f.index)); index = next_index f.index } in
      if g.index == 0 then returns g.sum else at (g.batch_rips g.index) g

  unfoldable pub run : ℕ → Label → Frame → Option ℕ
  run zero l f = none
  run (suc fuel) l f = elim (code l f) [ returns s ↦ some s | at l' f' ↦ run fuel l' f' ]

-- Eight packets pass two labels each.
abbrev pub fuel : ℕ
fuel = 16

unfoldable pub process_pkts_in_batch : (ℕ → ℕ) → (ℕ → ℕ) → (ℕ → ℕ) → ℕ → Option ℕ
unfolding code run
process_pkts_in_batch garbage ht_log pkt_lo sum =
    run ht_log pkt_lo fuel label_0
      (record { index = 0; batch_rips = λ i. label_0; a1 = garbage; sum = sum })

unfoldable pub main : (ℕ → ℕ) → Host → Exit ℕ
main garbage = main_with (process_pkts_in_batch garbage) num_pkts
