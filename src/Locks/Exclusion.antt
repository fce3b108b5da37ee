-- ===== src/Locks/Exclusion.antt =====
-- The states of locks/elementry_locks.c: who holds the spinlock, and the increments to come.
use systemish.Base.{
  ℕ, suc, ◌+◌, ◌*◌, ◌^◌, ◌≤◌, ◌<◌, ◌≡◌, refl, ap, ◌∙◌, sym, update, Bool, true, false, arith, ◌==◌,
  Bool-cases, ==_iff, inl, inr, sum_below, sum_below-change, sum_below-zero, le-sum_below,
  add-le-sum_below, dec_lt, ◌≢◌,
}
use systemish.Locks.Counter.{
  Pc, head, waiting, locked, loaded, leaving, done, Memory, Move, finish, enter, spin, acquire,
  load, store, release, World, Turn, by, main_world, Reachable, created, turned,
}

-- whether a thread holds the lock
abbrev pub holds : Pc → ℕ
holds (locked n) = 1
holds (loaded n v) = 1
holds (leaving n) = 1
holds _ = 0

-- the increments that a thread has still to store
abbrev pub pending : Pc → ℕ
pending (head n) = n
pending (waiting n) = suc n
pending (locked n) = suc n
pending (loaded n v) = suc n
pending (leaving n) = n
pending done = 0

abbrev flag : Bool → ℕ
flag true = 1
flag false = 0

flag-le : (b : Bool) → flag b ≤ 1
flag-le b = ground arith

flag-true : (b : Bool) → 0 < flag b → b ≡ true
flag-true b h = ground arith

-- what a thread has read is still in the counter
abbrev IsFresh : Memory → Pc → Type 0
IsFresh m (loaded n v) = v ≡ m.counter
IsFresh m _ = Unit {0}

record Inv (total : ℕ) (s : World) : Type 0 where
  held : sum_below 4 (λ i. holds (s.at i)) ≡ flag s.shared.lock
  counted : s.shared.counter + sum_below 4 (λ i. pending (s.at i)) ≡ total
  fresh : (i : ℕ) → i < 4 → IsFresh s.shared (s.at i)

-- What a move does to the weights of its thread.
record Effect (m : Memory) (p : Pc) (m' : Memory) (p' : Pc) : Type 0 where
  lock_kept : flag m'.lock + holds p ≡ flag m.lock + holds p'
  count_kept : m'.counter + pending p' ≡ m.counter + pending p
  others : holds p ≡ 0 → m'.counter ≡ m.counter
  own : IsFresh m' p'

Move-Effect :
    {m m' : Memory} {p p' : Pc}
    → Move m p m' p'
    → IsFresh m p
    → m.counter + pending p < 2 ^ 32
    → (0 < holds p → m.lock ≡ true)
    → Effect m p m' p'
Move-Effect finish f small h = ground arith
Move-Effect enter f small h = ground arith
Move-Effect (spin g) f small h = ground arith
Move-Effect (acquire g) f small h = ground (arith, g)
Move-Effect load f small h = ground arith
Move-Effect store f small h = ground arith
Move-Effect release f small h = ground (arith, h (omega arith))

module _ {total : ℕ} {s : World} (small : total < 2 ^ 32) (inv : Inv total s) where
  open inv use {held, counted, fresh}

  -- Two threads do not hold the lock together.
  Inv-alone : (i j : ℕ) → i < 4 → j < 4 → i ≢ j → 0 < holds (s.at i) → holds (s.at j) ≡ 0
  Inv-alone i j hi hj ne h = elim (dec_lt i j) [
    | yes below ↦
        omega (
          arith,
          held,
          flag-le s.shared.lock,
          add-le-sum_below 4 (λ k. holds (s.at k)) i j below hj,
        )
    | no above ↦ omega (
      arith,
      held,
      flag-le s.shared.lock,
      add-le-sum_below 4 (λ k. holds (s.at k)) j i (omega arith) hi,
    )
  ]

  module _ (i : ℕ) {m : Memory} {p : Pc} (low : i < 4) (mv : Move s.shared (s.at i) m p) where
    effect : Effect s.shared (s.at i) m p
    effect =
        Move-Effect mv (fresh i low)
          (omega (arith, counted, le-sum_below 4 (λ k. pending (s.at k)) i low))
          (λ h.
            flag-true s.shared.lock
              (omega (arith, held, le-sum_below 4 (λ k. holds (s.at k)) i low)))

    open effect use {lock_kept, count_kept, others, own}

    -- A weight of the threads, before and after the move.
    weight-change :
        (w : Pc → ℕ)
        → sum_below 4 (λ k. w (update s.at i p k)) + w (s.at i)
          ≡ sum_below 4 (λ k. w (s.at k)) + w p
    weight-change w =
        sum_below-change 4 (λ k. w (update s.at i p k)) (λ k. w (s.at k)) i low
          (λ k _ ne. ground arith)
        ∙ ap (λ t. sum_below 4 (λ k. w (s.at k)) + t) (ground arith)

    still_fresh : (j : ℕ) → j < 4 → j ≢ i → IsFresh m (s.at j)
    still_fresh j hj ne = go (s.at j) (fresh j hj) (λ h. Inv-alone j i hj low ne h)
      where
        go : (q : Pc) → IsFresh s.shared q → (0 < holds q → holds (s.at i) ≡ 0) → IsFresh m q
        go (loaded n v) f h = f ∙ sym (others (h (omega arith)))
        go _ f h = tt

    Turn-Inv_pick : Inv total (record { shared = m; at = update s.at i p })
    Turn-Inv_pick = record {
      held = omega (arith, held, lock_kept, weight-change holds);
      counted = omega (arith, counted, count_kept, weight-change pending);
      fresh = λ j hj. elim (Bool-cases (j == i)) [
        | inl at ↦ rw at own
        | inr off ↦ rw off (still_fresh j hj (ground (arith, off)))
      ];
    }

Turn-Inv : {total : ℕ} {s t : World} → total < 2 ^ 32 → Turn s t → Inv total s → Inv total t
Turn-Inv small (by i low mv) inv = Turn-Inv_pick small inv i low mv

main_world-Inv : (rounds : ℕ) → Inv (4 * rounds) (main_world rounds)
unfolding sum_below
main_world-Inv rounds = record { held = refl; counted = omega arith; fresh = λ i h. tt }

Reachable-Inv :
    {rounds : ℕ} {s : World} → 4 * rounds < 2 ^ 32 → Reachable rounds s → Inv (4 * rounds) s
Reachable-Inv {rounds} small created = main_world-Inv rounds
Reachable-Inv small (turned r st) = Turn-Inv small st (Reachable-Inv small r)

-- If four times the rounds fit in 32 bits, in every state that the threads reach at most one of
-- them is between the acquisition and the release of the lock.
pub spinlock-exclusive :
    {rounds : ℕ} {s : World}
    → 4 * rounds < 2 ^ 32
    → Reachable rounds s
    → (i j : ℕ) → i < 4
    → j < 4
    → 0 < holds (s.at i)
    → 0 < holds (s.at j)
    → i ≡ j
spinlock-exclusive small r i j hi hj p q = elim (Bool-cases (i == j)) [
  | inl at ↦ (==_iff i j).0 at
  | inr off ↦
      absurd (
        omega (arith, q, Inv-alone small (Reachable-Inv small r) i j hi hj (ground (arith, off)) p))
]

-- If four times the rounds fit in 32 bits, no increment is lost: in every reachable state the
-- counter and the increments still to come add up to four times the rounds; when all threads are
-- done the counter is that product.
pub counter-total :
    {rounds : ℕ} {s : World}
    → 4 * rounds < 2 ^ 32
    → Reachable rounds s
    → (s.shared.counter + sum_below 4 (λ i. pending (s.at i)) ≡ 4 * rounds)
      × (((i : ℕ) → i < 4 → s.at i ≡ done) → s.shared.counter ≡ 4 * rounds)
counter-total {s} small r =
    let inv = Reachable-Inv small r in
    (
      inv.counted,
      λ all_done. omega (
        arith,
        inv.counted,
        sum_below-zero 4 (λ i. pending (s.at i)) (λ i h. ap pending (all_done i h)),
      ),
    )
