-- ===== src/Goto/Machine/Inv.antt =====
-- The rotation through a batch for any code of one packet that makes progress: fuel and `sum`.
use systemish.Base.{
  ℕ, zero, suc, ◌+◌, ◌-◌, ◌*◌, ◌%◌, ◌^◌, ◌≤◌, ◌<◌, ◌≡◌, ◌≢◌, refl, ap, ◌∙◌, sym, inl, inr, Bool,
  true, false, ◌==◌, if◌then◌else◌, ==_iff, Bool-cases, update, Option, some, arith, sum_below,
  sum_below-change, sum_below-zero, bit, bit-bit_or, bit_or-lt, bit-full, bit-missing, bit-zero,
  missing,
}
use systemish.Goto.Machine.{
  Rip, label_0, label_1, finished, Slot, Batch, Outcome, pss, falls, Turn, goes_on, returns,
  fpp_set, next_index, fpp_pss, end_code, turn, run, start, after, jump,
}

abbrev pub is_finished : Rip → Bool
is_finished finished = true
is_finished _ = false

module _ {A : Type 0} where
  -- What one stretch of code does, given what a packet that resumes at a label will add to `sum`
  -- and how many stretches it has left.
  abbrev pub Keeps : (ℕ → Rip → A → ℕ) → (Rip → A → ℕ) → ℕ → ℕ → Rip → A → Outcome A → Type 0
  Keeps value left i s r a (pss r' a') =
      (is_finished r' ≡ false) × (value i r' a' ≡ value i r a) × (left r' a' < left r a)
  Keeps value left i s r a (falls a' s') = (s' ≡ (s + value i r a) % 2 ^ 32) × (0 < left r a)

pub record Task {A : Type 0} (block : Rip → ℕ → ℕ → A → Outcome A) : Type 0 where
  pub value : ℕ → Rip → A → ℕ
  pub left : Rip → A → ℕ
  pub keeps :
      (i s : ℕ) (r : Rip) (a : A) → is_finished r ≡ false → Keeps value left i s r a (block r i s a)

module _ {A : Type 0} (block : Rip → ℕ → ℕ → A → Outcome A) (task : Task block) where
  open task use {value, left, keeps}

  -- what packet `i` will still add
  abbrev owed : (ℕ → Slot A) → ℕ → ℕ
  owed slots i = if is_finished (slots i).rip then 0 else value i (slots i).rip (slots i).locals

  -- With `fuel` turns left every unfinished packet still gets all the turns that it needs.
  abbrev InTime : ℕ → Batch A → Type 0
  InTime fuel m =
      (i : ℕ)
      → i < 8
      → is_finished (m.slots i).rip ≡ false
      → (i + 8 - m.index) % 8 + 8 * left (m.slots i).rip (m.slots i).locals < fuel + 8

  record Inv (fuel t : ℕ) (m : Batch A) : Type 0 where
    here : m.index < 8
    byte : m.mask < 256
    open_bits : m.mask ≢ 255
    marked : (i : ℕ) → i < 8 → bit m.mask i ≡ is_finished (m.slots i).rip
    small : m.sum < 2 ^ 32
    total : (m.sum + sum_below 8 (owed m.slots)) % 2 ^ 32 ≡ t
    in_time : InTime fuel m

  left-pos : (i s : ℕ) (r : Rip) (a : A) → is_finished r ≡ false → 0 < left r a
  left-pos i s r a h = go (block r i s a) (keeps i s r a h)
    where
      go : (o : Outcome A) → Keeps value left i s r a o → 0 < left r a
      go (pss r' a') k = omega (arith, k.2)
      go (falls a' s') k = k.1

  -- Some packet is unfinished, so some fuel is left.
  Inv-fuel : (t : ℕ) (m : Batch A) → Inv 0 t m → ⊥
  Inv-fuel t m inv =
      let (clear, low) = bit-missing m.mask inv.byte inv.open_bits in
      let k = missing m.mask in
      let h : is_finished (m.slots k).rip ≡ false = sym (inv.marked k low) ∙ clear in
      omega (arith, inv.in_time k low h, left-pos k 0 (m.slots k).rip (m.slots k).locals h)

  module _ (fuel t : ℕ) (m : Batch A) (inv : Inv (suc fuel) t m) where
    open inv use {here, byte, marked, small, total, in_time}

    abbrev now : Rip
    now = (m.slots m.index).rip

    abbrev own : A
    own = (m.slots m.index).locals

    -- After a turn the slots, but for the one at `I`, are as they were.
    later_turn :
        (slots : ℕ → Slot A) (mask s : ℕ)
        → ((i : ℕ) → i ≢ m.index → slots i ≡ m.slots i)
        → (is_finished (slots m.index).rip ≡ false
            → (is_finished now ≡ false)
              × (left (slots m.index).rip (slots m.index).locals < left now own))
        → InTime fuel (record { index = next_index m.index; slots = slots; mask = mask; sum = s })
    unfolding next_index
    later_turn slots mask s same step i low h = elim (Bool-cases (i == m.index)) [
      | inl at ↦
          let e : i ≡ m.index = (==_iff i m.index).0 at in
          let (h', less) = step (ap (λ k. is_finished (slots k).rip) (sym e) ∙ h) in
          omega (
            arith,
            e,
            less,
            in_time m.index here h',
            ap (λ k. left (slots k).rip (slots k).locals) e,
          )
      | inr off ↦
          let ne : i ≢ m.index = ground (arith, off) in
          let e = same i ne in
          omega (
            arith,
            ne,
            ap (λ (x : Slot A). left x.rip x.locals) e,
            in_time i low (sym (ap (λ (x : Slot A). is_finished x.rip) e) ∙ h),
          )
    ]

    -- What the packet at `I` still owes goes from its old slot to its new one.
    owed-change :
        (slots : ℕ → Slot A)
        → ((i : ℕ) → i ≢ m.index → slots i ≡ m.slots i)
        → sum_below 8 (owed slots) + owed m.slots m.index
          ≡ sum_below 8 (owed m.slots) + owed slots m.index
    owed-change slots same =
        sum_below-change 8 (owed slots) (owed m.slots) m.index here (λ i low ne.
          ap (λ (x : Slot A). if is_finished x.rip then 0 else value i x.rip x.locals) (same i ne))

    pss-Inv :
        (r : Rip) (a : A)
        → is_finished now ≡ false
        → (is_finished r ≡ false)
          × (value m.index r a ≡ value m.index now own)
          × (left r a < left now own)
        → Inv fuel t (fpp_pss m r a)
    unfolding fpp_pss next_index
    pss-Inv r a h (h', same_value, less) =
        let slots = (fpp_pss m r a).slots in
        let same = λ (i : ℕ) (ne : i ≢ m.index). keep i ne in
        record {
          here = omega arith;
          byte = byte;
          open_bits = inv.open_bits;
          marked = λ i low. elim (Bool-cases (i == m.index)) [
            | inl at ↦ rw at (
                marked i low
                ∙ ap (λ k. is_finished (m.slots k).rip) ((==_iff i m.index).0 at)
                ∙ h
                ∙ sym h')
            | inr off ↦ rw off (marked i low)
          ];
          small = small;
          total = omega (arith, total, owed-change slots same, same_value, own_new, own_old);
          in_time = later_turn slots m.mask m.sum same (λ _. (h, new_less));
        }
      where
        keep : (i : ℕ) → i ≢ m.index → (fpp_pss m r a).slots i ≡ m.slots i
        keep i ne = ground arith

        own_new : owed (fpp_pss m r a).slots m.index ≡ value m.index r a
        own_new = ground arith

        own_old : owed m.slots m.index ≡ value m.index now own
        own_old = rw h

        new_less :
            left ((fpp_pss m r a).slots m.index).rip ((fpp_pss m r a).slots m.index).locals
            < left now own
        new_less = ground arith

    -- At `end`: either the batch is done and `sum` is complete, or the rotation goes on.
    abbrev Ends : Turn A → Type 0
    Ends (returns s) = s ≡ t
    Ends (goes_on m') = Inv fuel t m'

    module _ (a : A) (s : ℕ) (paid : s ≡ (m.sum + owed m.slots m.index) % 2 ^ 32) where
      abbrev ended : ℕ → Slot A
      ended = update m.slots m.index (record { rip = finished; locals = a })

      ended_same : (i : ℕ) → i ≢ m.index → ended i ≡ m.slots i
      ended_same i ne = ground arith

      ended_own : is_finished (ended m.index).rip ≡ true
      ended_own = ground arith

      ended-marked : (i : ℕ) → i < 8 → bit (fpp_set m.mask m.index) i ≡ is_finished (ended i).rip
      unfolding fpp_set
      ended-marked i low = elim (Bool-cases (i == m.index)) [
        | inl at ↦ bit-bit_or byte here i low ∙ rw at
        | inr off ↦ bit-bit_or byte here i low ∙ rw off (marked i low)
      ]

      ended-total : (s + sum_below 8 (owed ended)) % 2 ^ 32 ≡ t
      ended-total = omega (arith, total, paid, owed-change ended ended_same, own_new)
        where
          own_new : owed ended m.index ≡ 0
          own_new = rw ended_own

      all_paid : fpp_set m.mask m.index ≡ 255 → sum_below 8 (owed ended) ≡ 0
      all_paid full = sum_below-zero 8 (owed ended) λ i low.
          let h : is_finished (ended i).rip ≡ true =
            sym (ended-marked i low) ∙ ap (λ n. bit n i) full ∙ bit-full i low in
          rw h

      end-Ends : Ends (end_code m a s)
      unfolding end_code fpp_set next_index
      end-Ends = elim (Bool-cases (fpp_set m.mask m.index == 255)) [
        | inl full ↦ rw full (omega (arith, ended-total, paid, all_paid ((==_iff _ 255).0 full)))
        | inr more ↦ rw more (record {
          here = omega arith;
          byte = bit_or-lt byte here;
          open_bits = ground (arith, more);
          marked = ended-marked;
          small = omega (arith, paid);
          total = ended-total;
          in_time = later_turn ended (fpp_set m.mask m.index) s ended_same λ h. cc (ended_own, h);
        })
      ]

    after-Ends :
        (o : Outcome A)
        → is_finished now ≡ false
        → Keeps value left m.index m.sum now own o
        → Ends (after m o)
    unfolding after
    after-Ends (pss r a) h k = pss-Inv r a h k
    after-Ends (falls a s) h k = end-Ends a s (rw h k.0)

    jump-Ends : (r : Rip) (b : A) → now ≡ r → own ≡ b → Ends (jump block m r b)
    unfolding jump
    jump-Ends finished b e e' = end-Ends b m.sum (omega (arith, small, settled))
      where
        settled : owed m.slots m.index ≡ 0
        settled = rw e
    jump-Ends label_0 b e e' = after-Ends _ (rw e) (rw (e, e') (keeps m.index m.sum label_0 b refl))
    jump-Ends label_1 b e e' = after-Ends _ (rw e) (rw (e, e') (keeps m.index m.sum label_1 b refl))

    turn-Ends : Ends (turn block m)
    unfolding turn
    turn-Ends = jump-Ends now own refl refl

  run-Inv : (fuel t : ℕ) (m : Batch A) → Inv fuel t m → run block fuel m ≡ some t
  unfolding run
  run-Inv zero t m inv = absurd (Inv-fuel t m inv)
  run-Inv (suc fuel) t m inv = go (turn block m) (turn-Ends fuel t m inv) (λ m'. run-Inv fuel t m')
    where
      go :
          (o : Turn A)
          → Ends fuel t m inv o
          → ((m' : Batch A) → Inv fuel t m' → run block fuel m' ≡ some t)
          → elim o as (λ _. Option ℕ) [ returns s ↦ some s | goes_on m' ↦ run block fuel m' ]
            ≡ some t
      go (returns s) e ih = ap some e
      go (goes_on m') i ih = ih m' i

  -- Each packet adds its contribution to `sum` once, in whatever order they finish.
  pub run-total :
      (fuel n : ℕ) (garbage : ℕ → A) (s : ℕ)
      → s < 2 ^ 32
      → ((a : A) → left label_0 a ≤ n)
      → 8 * n < fuel
      → run block fuel (start garbage s)
        ≡ some ((s + sum_below 8 (λ i. value i label_0 (garbage i))) % 2 ^ 32)
  unfolding start
  run-total fuel n garbage s small most enough = run-Inv fuel _ (start garbage s) (record {
    here = omega arith;
    byte = omega arith;
    open_bits = omega arith;
    marked = bit-zero;
    small = small;
    total = refl;
    in_time = λ i low h. omega (arith, most (garbage i));
  })
