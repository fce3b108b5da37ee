-- ===== src/HugeAlloc/Grow.antt =====
-- `alloc` of utils/huge_alloc.h when it has to reserve more hugepages.
use systemish.Base.{
  ℕ, zero, suc, ◌-◌, ◌*◌, ◌/◌, ◌%◌, ◌^◌, ◌≤◌, ◌<◌, ◌≡◌, refl, ap, ◌∙◌, sym, arith, if◌then◌else◌,
  List, Bool, true, false, inl, inr, is_empty, Option, none, some,
}
use mathlib.Core.Path.{subst}
use systemish.HugeAlloc.{
  hugepage_size, max_class_size, num_classes, round_up, add_buffers, grow, split_and_take,
  reserve_hugepages,
}
use systemish.HugeAlloc.State.{Buffer, HugeAlloc, Error, ok, Attempt, ◌>>=◌}
use systemish.HugeAlloc.Inv.{Inv, IsFresh, AllGrant, AllTaken}
use systemish.HugeAlloc.Ends.{Ends, Ends-bind}
use systemish.HugeAlloc.Reserve.{
  Grown, ReserveResult, reserve_hugepages-Ends, with_buffers, with_buffers-Inv,
}
use systemish.HugeAlloc.Take.{AllocResult, split_and_take-Handed}

-- The state with the size of the next reservation doubled.
abbrev pub doubled : HugeAlloc → HugeAlloc
doubled s = record s { prev_allocation_size = s.prev_allocation_size * 2 % 2 ^ 64 }

-- What `grow` returns: no class and the state as it was, or the largest class and new buffers
-- there.
abbrev GrowResult : HugeAlloc → Option ℕ → HugeAlloc → Type 0
GrowResult s none t = t ≡ s
GrowResult s (some k) t = (k ≡ 17) × Grown (doubled s) t

-- An exception leaves the doubled size behind.
abbrev pub Leaves : HugeAlloc → Error → HugeAlloc → Type 0
Leaves s e t = t ≡ doubled s

after_reserve :
    (s : HugeAlloc) (W : Type 0) (success : Bool) (t : HugeAlloc)
    → s.prev_allocation_size ≤ 2 ^ 47
    → ReserveResult (doubled s) success t
    → Ends (GrowResult s) (Leaves s) W (
        if success
        then ok (some (num_classes - 1)) t
        else ok none (record t { prev_allocation_size = t.prev_allocation_size / 2 }))
after_reserve s W true t h grown = (refl, grown)
after_reserve s W false t h same =
    ap (λ (r : HugeAlloc). record r { prev_allocation_size = r.prev_allocation_size / 2 }) same
    ∙ ap (λ p. record s { prev_allocation_size = p }) halved
  where
    halved : s.prev_allocation_size * 2 % 2 ^ 64 / 2 ≡ s.prev_allocation_size
    halved = omega arith

grow_result :
    (s : HugeAlloc) (live : List Buffer) (calls : List Attempt)
    → Inv s live
    → AllGrant s (round_up (s.prev_allocation_size * 2)) calls
    → Ends (GrowResult s) (Leaves s) (AllTaken calls) (grow calls s)
unfolding grow
grow_result s live calls inv g =
    Ends-bind (ReserveResult (doubled s)) (GrowResult s) (Leaves s) (AllTaken calls)
      (reserve_hugepages (s.prev_allocation_size * 2 % 2 ^ 64) calls (doubled s)) _
      (reserve_hugepages-Ends (doubled s) calls (omega (arith, inv.grown, inv.limited))
        (omega (arith, inv.limited)) (subst (λ p. AllGrant s (round_up p) calls) (sym kept) g))
      (λ success t h. after_reserve s (AllTaken calls) success t inv.limited h)
  where
    kept : s.prev_allocation_size * 2 % 2 ^ 64 ≡ s.prev_allocation_size * 2
    kept = omega (arith, inv.limited)

grown-Inv :
    (s : HugeAlloc) (live : List Buffer) (key buf size n : ℕ)
    → Inv s live
    → IsFresh s buf size
    → size % hugepage_size ≡ 0
    → n * max_class_size ≤ size
    → (doubled s).prev_allocation_size ≤ size
    → Inv (with_buffers (doubled s) key buf size n) live
grown-Inv s live key buf size n inv fresh pages fits enough =
    let i = with_buffers-Inv s live key buf size n inv fresh pages fits in
    record {
      classified = i.classified;
      handed = i.handed;
      owned = i.owned;
      disjoint = i.disjoint;
      sized = i.sized;
      bounded = i.bounded;
      reserved = i.reserved;
      paged = i.paged;
      counted = i.counted;
      grown = omega (arith, inv.grown, inv.limited);
      limited = omega (arith, enough, fresh.1);
    }

add_buffers-some :
    (buf n : ℕ) (free : List Buffer) → 1 ≤ n → is_empty (add_buffers buf n free) ≡ false
unfolding add_buffers
add_buffers-some buf zero free h = absurd (omega arith)
add_buffers-some buf (suc n) free h = refl

after_grow :
    (s : HugeAlloc) (live : List Buffer) (c : ℕ) (W : Type 0) (o : Option ℕ) (t : HugeAlloc)
    → Inv s live
    → c < num_classes
    → ((k : ℕ) → c ≤ k → k < num_classes → is_empty (s.freelist k) ≡ true)
    → GrowResult s o t
    → Ends (AllocResult s live c) (Leaves s) W (split_and_take c o t)
after_grow s live c W none t inv low gaps same = unfold split_and_take in inl (refl, same)
after_grow s live c W (some k) t inv low gaps (at, grown) =
    let (b, t', run, handed) =
      split_and_take-Handed (with_buffers (doubled s) grown.key grown.buf grown.size grown.n) live c
        17
        (grown-Inv s live grown.key grown.buf grown.size grown.n inv grown.fresh grown.paged
          grown.fits grown.enough)
        (omega arith) (omega arith)
        (add_buffers-some grown.buf grown.n (s.freelist 17) grown.some_left)
        (λ k h h'. ground (arith, gaps k h (omega arith))) in
    subst (Ends (AllocResult s live c) (Leaves s) W)
      (sym (
        ap (λ j. split_and_take c (some j) t) at
        ∙ ap (split_and_take c (some 17)) grown.state
        ∙ run))
      (inr handed)

-- When all larger classes are empty.
pub grow-Ends :
    (s : HugeAlloc) (live : List Buffer) (c : ℕ) (calls : List Attempt)
    → Inv s live
    → c < num_classes
    → ((k : ℕ) → c ≤ k → k < num_classes → is_empty (s.freelist k) ≡ true)
    → AllGrant s (round_up (s.prev_allocation_size * 2)) calls
    → Ends (AllocResult s live c) (Leaves s) (AllTaken calls) ((grow calls >>= split_and_take c) s)
grow-Ends s live c calls inv low gaps g =
    Ends-bind (GrowResult s) (AllocResult s live c) (Leaves s) (AllTaken calls) (grow calls s)
      (split_and_take c) (grow_result s live calls inv g)
      (λ o t h. after_grow s live c (AllTaken calls) o t inv low gaps h)
