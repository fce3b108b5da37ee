-- ===== src/Ispc/Chase.antt =====
-- ispc-test/pointer-chasing/ispc/main.c: pointer chasing in lanes.
use systemish.Base.{
  ℕ, zero, suc, ◌%◌, ◌<◌, ◌≡◌, refl, ap, ◌∙◌, arith, add32, update, for_below, fill, fill-below,
  false, minus_one, ◌==◌, if◌then◌else◌, Host, Exit, returned, exited, deref, for_below-cells, ltb,
  true, sym, Option, none, some,
}

abbrev pub batch_size : ℕ
batch_size = 16

-- CAP; `& CAP_` is a mask of ten ones.
abbrev pub cap : ℕ
cap = 1024

abbrev pub deref_length : ℕ
deref_length = 4194304

unfoldable pub init_array : Host → Exit (ℕ → ℕ)
init_array h =
    if h.sid == minus_one
    then exited 0
    else deref h.segment λ seg. returned (fill cap (λ i. h.rand i % cap) seg)

-- A lane: `sum[j]` and `addr[j]`.
pub record Lane : Type 0 where
  pub sum : ℕ
  pub addr : ℕ

-- What round `i` does to a lane.
unfoldable pub hop : (ℕ → ℕ) → ℕ → Lane → Lane
hop a i s = record { sum = add32 s.sum (a s.addr); addr = add32 (a s.addr) i % cap }

-- The loop over `i`, its first `n` rounds over all lanes.
unfoldable pub rounds : (ℕ → ℕ) → ℕ → (ℕ → Lane) → ℕ → Lane
rounds a n s =
    for_below n (λ i t. for_below batch_size (λ j lanes. update lanes j (hop a i (lanes j))) t) s

-- `garbage` is what the array `addr` holds before it is written.
unfoldable pub ptr_chase : (ℕ → ℕ) → (ℕ → ℕ) → (ℕ → ℕ) → ℕ → ℕ
ptr_chase garbage a sum j =
    let addr = fill batch_size a garbage in
    (rounds a deref_length (λ k. record { sum = sum k; addr = addr k }) j).sum

-- `main`, with the sums that it prints. `argc` is the number of arguments, `use_ispc` the value
-- of the first, and `ispc` the routine that ISPC compiles from main.ispc.
unfoldable pub main : ((ℕ → ℕ) → (ℕ → ℕ) → ℕ → ℕ) → (ℕ → ℕ) → ℕ → ℕ → Host → Option (Exit (ℕ → ℕ))
main ispc garbage argc use_ispc h =
    if argc == 2
    then some (elim (init_array h) [
      | returned a ↦
          returned (if use_ispc == 1 then ispc a (λ j. 0) else ptr_chase garbage a (λ j. 0))
      | other ↦ other
    ])
    else none

-- A lane alone, for `n` rounds.
unfoldable pub lane : (ℕ → ℕ) → ℕ → Lane → Lane
lane a n s = for_below n (hop a) s

rounds-suc :
    (a : ℕ → ℕ) (n : ℕ) (s : ℕ → Lane) (j : ℕ)
    → j < batch_size
    → rounds a (suc n) s j ≡ hop a n (rounds a n s j)
unfolding rounds
rounds-suc a n s j h = step
  where
    low : ltb j 16 ≡ true
    low = ground arith

    step : rounds a (suc n) s j ≡ hop a n (rounds a n s j)
    step = unfold_rounds ∙ for_below-cells 16 (λ _ t. hop a n t) (rounds a n s) j ∙ rw low
      where
        unfold_rounds :
            rounds a (suc n) s j
            ≡ for_below 16 (λ k lanes. update lanes k (hop a n (lanes k))) (rounds a n s) j
        unfold_rounds = unfold for_below in refl

-- The lanes do not interfere: in any number of rounds, each does what it does alone.
pub rounds-lane :
    (a : ℕ → ℕ) (n : ℕ) (s : ℕ → Lane) (j : ℕ) → j < batch_size → rounds a n s j ≡ lane a n (s j)
unfolding lane
rounds-lane a zero s j h = unfold rounds for_below in refl
rounds-lane a (suc n) s j h =
    rounds-suc a n s j h ∙ ap (hop a n) (rounds-lane a n s j h) ∙ unfold for_below in refl

hop-inside :
    (a a' : ℕ → ℕ)
    → ((k : ℕ) → k < cap → a k ≡ a' k)
    → (i : ℕ) (t : Lane) → t.addr < cap
    → hop a i t ≡ hop a' i t
unfolding hop
hop-inside a a' same i t h = rw (same t.addr h)

-- From an address below CAP a lane reads below CAP alone.
pub lane-inside :
    (a a' : ℕ → ℕ)
    → ((k : ℕ) → k < cap → a k ≡ a' k)
    → (n : ℕ) (s : Lane) → s.addr < cap
    → (lane a n s ≡ lane a' n s) × ((lane a n s).addr < cap)
unfolding lane for_below hop
lane-inside a a' same zero s h = (refl, h)
lane-inside a a' same (suc n) s h =
    let (e, low) = lane-inside a a' same n s h in
    (hop-inside a a' same n (lane a n s) low ∙ ap (hop a' n) e, omega arith)

-- Each of the lanes below BATCH_SIZE of `ptr_chase` ends with the sum of a lane that runs alone.
pub ptr_chase-lane :
    (garbage a sum : ℕ → ℕ) (j : ℕ)
    → j < batch_size
    → ptr_chase garbage a sum j ≡ (lane a deref_length (record { sum = sum j; addr = a j })).sum
unfolding ptr_chase
ptr_chase-lane garbage a sum j h =
    ap (λ (t : Lane). t.sum)
      (rounds-lane a deref_length _ j h
        ∙ ap (λ k. lane a deref_length (record { sum = sum j; addr = k }))
            (fill-below a garbage batch_size j h))

-- If the cells of the array below CAP hold numbers below CAP, `ptr_chase` computes the same sums
-- from two memories that agree on these cells.
pub ptr_chase-inside :
    (garbage a a' sum : ℕ → ℕ)
    → ((k : ℕ) → k < cap → (a k ≡ a' k) × (a k < cap))
    → (j : ℕ) → j < batch_size
    → ptr_chase garbage a sum j ≡ ptr_chase garbage a' sum j
ptr_chase-inside garbage a a' sum same j h =
    let below : j < cap = omega arith in
    ptr_chase-lane garbage a sum j h
    ∙ ap (λ (t : Lane). t.sum)
        ((lane-inside a a' (λ k low. (same k low).0) deref_length _ (same j below).1).0
          ∙ ap (λ k. lane a' deref_length (record { sum = sum j; addr = k })) (same j below).0)
    ∙ sym (ptr_chase-lane garbage a' sum j h)

-- The array that `init_array` makes holds indices into itself.
pub init_array-lt :
    (h : Host) {seg : ℕ → ℕ}
    → (h.sid == minus_one) ≡ false
    → h.segment ≡ some seg
    → (a : ℕ → ℕ) × (init_array h ≡ returned a) × ((k : ℕ) → k < cap → a k < cap)
unfolding init_array
init_array-lt h {seg} ok at = (
  fill cap (λ i. h.rand i % cap) seg,
  rw (ok, at),
  λ k low. omega (arith, fill-below (λ i. h.rand i % cap) seg cap k low),
)
