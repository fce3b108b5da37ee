-- ===== src/Goto/Machine.antt =====
-- goto/simple/fpp.h and goto/synthetic-divergence/fpp.h, with the frame that every
-- `process_pkts_in_batch` in goto form has around them: the arrays of resume points and of local
-- variables, the mask of finished packets, and the code at the label `end`.
-- An array that is read and written at `I` only is a field of the slot of packet `I`. The code
-- between two switch points is the parameter `block`.
pub mod Inv
use systemish.Base.{
  ℕ, zero, suc, ◌+◌, ◌-◌, ◌%◌, ◌^◌, bit_or, ◌==◌, if◌then◌else◌, update, Option, none, some,
}

abbrev pub batch_size : ℕ
batch_size = 8

-- What `batch_rips[i]` points at.
pub data Rip : Type 0 where
  label_0 : Rip
  label_1 : Rip
  finished : Rip  -- the label `end`

pub record Slot (A : Type 0) : Type 0 where
  pub rip : Rip
  pub locals : A

pub record Batch (A : Type 0) : Type 0 where
  pub index : ℕ  -- `I`
  pub slots : ℕ → Slot A
  pub mask : ℕ  -- `iMask`
  pub sum : ℕ

-- How the code between two switch points ends: at `FPP_PSS(addr, label)`, which saves the label,
-- or by falling through to `end`, with the new value of the global `sum`.
pub data Outcome (A : Type 0) : Type 0 where
  pss : Rip → A → Outcome A
  falls : A → ℕ → Outcome A

pub data Turn (A : Type 0) : Type 0 where
  goes_on : Batch A → Turn A
  returns : ℕ → Turn A

-- FPP_SET(n, i)
unfoldable pub fpp_set : ℕ → ℕ → ℕ
fpp_set n i = bit_or n (2 ^ i)

-- `I = (I + 1) & BATCH_SIZE_`, a mask of three ones
unfoldable pub next_index : ℕ → ℕ
next_index i = (i + 1) % batch_size

module _ {A : Type 0} where
  -- FPP_PSS(addr, label): the prefetch is a hint, so only the save and the switch are left.
  unfoldable pub fpp_pss : Batch A → Rip → A → Batch A
  fpp_pss m r a = record m {
    index = next_index m.index;
    slots = update m.slots m.index (record { rip = r; locals = a });
  }

  -- The code at `end`, with `sum` as the packet left it.
  unfoldable pub end_code : Batch A → A → ℕ → Turn A
  end_code m a s =
      let mask' = fpp_set m.mask m.index in
      if mask' == 2 ^ batch_size - 1
      then returns s
      else goes_on (record {
        index = next_index m.index;
        slots = update m.slots m.index (record { rip = finished; locals = a });
        mask = mask';
        sum = s;
      })

  after : Batch A → Outcome A → Turn A
  after m (pss r a) = goes_on (fpp_pss m r a)
  after m (falls a s) = end_code m a s

  -- `goto *batch_rips[I]`, up to the next such jump.
  jump : (Rip → ℕ → ℕ → A → Outcome A) → Batch A → Rip → A → Turn A
  jump block m finished a = end_code m a m.sum
  jump block m r a = after m (block r m.index m.sum a)

  unfoldable pub turn : (Rip → ℕ → ℕ → A → Outcome A) → Batch A → Turn A
  unfolding jump after
  turn block m = jump block m (m.slots m.index).rip (m.slots m.index).locals

  -- The jumps up to the `return`; `none` if the fuel runs out before.
  unfoldable pub run : (Rip → ℕ → ℕ → A → Outcome A) → ℕ → Batch A → Option ℕ
  run block zero m = none
  run block (suc fuel) m = elim (turn block m) [
    | returns s ↦ some s
    | goes_on m' ↦ run block fuel m'
  ]

  -- Every resume point is `label_0` and `I` is 0; the locals hold whatever the stack held.
  unfoldable pub start : (ℕ → A) → ℕ → Batch A
  start garbage s = record {
    index = 0;
    slots = λ i. record { rip = label_0; locals = garbage i };
    mask = 0;
    sum = s;
  }
