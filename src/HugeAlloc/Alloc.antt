-- ===== src/HugeAlloc/Alloc.antt =====
-- `alloc` of utils/huge_alloc.h: the buffer that it returns.
use systemish.Base.{
  ℕ, ◌+◌, ◌-◌, ◌*◌, ◌≤◌, ◌<◌, ◌≡◌, ap, ◌∙◌, arith, ltb, leb, ◌==◌, List, true, false, Bool-cases,
  inl, inr, ==_iff, is_empty, dec_lt,
}
use systemish.HugeAlloc.{
  min_class_size, max_class_size, num_classes, round_up, find_class, alloc_class, alloc,
}
use systemish.HugeAlloc.State.{Buffer, HugeAlloc, Attempt}
use systemish.HugeAlloc.Weights.{FreeList}
use systemish.HugeAlloc.Inv.{Inv, AllGrant, AllTaken}
use systemish.HugeAlloc.Ends.{Ends, Ends-map}
use systemish.HugeAlloc.Classes.{BsrLaw, get_class-IsLeastClass}
use systemish.HugeAlloc.Split.{take-Inv, find_class-Found}
use systemish.HugeAlloc.Take.{handed, AllocResult, Served, split_and_take-Handed}
use systemish.HugeAlloc.Grow.{Leaves, grow-Ends}

-- What `alloc` does on the class.
alloc_class-Ends :
    (s : HugeAlloc) (live : List Buffer) (c : ℕ) (calls : List Attempt)
    → Inv s live
    → c < num_classes
    → AllGrant s (round_up (s.prev_allocation_size * 2)) calls
    → Ends (AllocResult s live c) (Leaves s) (AllTaken calls) (alloc_class c calls s)
unfolding alloc_class
alloc_class-Ends s live c calls inv low g = elim (Bool-cases (is_empty (s.freelist c))) [
  | inr some_left ↦
      let (b, t, run, inv', is) = take-Inv s live inv c low some_left in
      rw (some_left, run) (inr (handed live c b t is inv'))
  | inl e ↦
      let f = find_class-Found s.freelist (17 - c) (c + 1) in
      let r : ℕ = find_class s.freelist (17 - c) (c + 1) in
      elim (Bool-cases (r == num_classes)) [
        | inl none_left ↦
            let at : r ≡ num_classes = (==_iff r num_classes).0 none_left in
            rw (e, none_left)
              (grow-Ends s live c calls inv low
                (λ k h h'. closed s.freelist c k r e f.gaps h (omega (arith, at))) g)
        | inr found ↦
            let at : r < num_classes = last_class r found (omega (arith, f.upto)) in
            let (b, t, run, handed) =
              split_and_take-Handed s live c r inv (omega (arith, f.from)) at
                (f.stops (omega arith)) (λ k h h'. closed s.freelist c k r e f.gaps h h') in
            rw (e, found, run) (inr handed)
      ]
]
  where
    last_class : (r : ℕ) → (r == num_classes) ≡ false → r ≤ num_classes → r < num_classes
    last_class r ne high = ground (arith, ne)

    closed :
        (free : FreeList) (c k r : ℕ)
        → is_empty (free c) ≡ true
        → ((j : ℕ) → c + 1 ≤ j → j < r → is_empty (free j) ≡ true)
        → c ≤ k
        → k < r
        → is_empty (free k) ≡ true
    closed free c k r e gaps h h' = elim (dec_lt c k) [
      | yes above ↦ gaps k (omega arith) h'
      | no at ↦ ap (λ j. is_empty (free j)) (omega arith) ∙ e
    ]

-- In a state with the invariant, where the system grants regions apart from each other, of 2 ^ 47
-- bytes at most in all: every size above the smallest class, up to the largest one, is served by a
-- buffer of the least class that holds it, of which no byte belongs to a buffer that is live or
-- free, or by a null buffer with the state unchanged; an exception leaves only a doubled reservation
-- behind, the search for a key ends unless every key is taken, and no assertion fails.
pub alloc-Ends :
    (bsrl : ℕ → ℕ) (law : BsrLaw bsrl) (s : HugeAlloc) (live : List Buffer) (size : ℕ)
    (calls : List Attempt)
    → Inv s live
    → min_class_size < size
    → size ≤ max_class_size
    → AllGrant s (round_up (s.prev_allocation_size * 2)) calls
    → Ends (Served s live size) (Leaves s) (AllTaken calls) (alloc bsrl size calls s)
unfolding alloc
alloc-Ends bsrl law s live size calls inv low high g =
    let (c, run, small, is) = get_class-IsLeastClass bsrl law size s low high in
    rw (fits, run, known c small)
      (Ends-map (AllocResult s live c) (Served s live size) (Leaves s) (AllTaken calls)
        (alloc_class c calls s) (λ b t h. (c, small, is, h))
        (alloc_class-Ends s live c calls inv small g))
  where
    fits : leb size max_class_size ≡ true
    fits = ground arith

    known : (c : ℕ) → c < num_classes → ltb c num_classes ≡ true
    known c h = ground arith
