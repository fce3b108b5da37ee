-- ===== src/HugeAlloc/Run.antt =====
-- Runs of the allocator of utils/huge_alloc.h: the invariant after any calls of its user.
use systemish.Base.{
  ℕ, ◌<◌, ◌≤◌, arith, All, All-after, All-before, All-append, ◌≡◌, ◌≢◌, sym, inl, inr, List, ◌∷◌,
  ◌++◌, ◌*◌, ◌^◌, ap, ◌∙◌,
}
use systemish.HugeAlloc.Calls.{
  Step, Reached, raw, raw_thrown, refused, served, alloc_thrown, freed, new, next,
}
use mathlib.Core.Path.{subst}
use systemish.HugeAlloc.{min_class_size, round_up, alloc_raw, alloc, free_buf}
use systemish.HugeAlloc.State.{Buffer, HugeAlloc, ok, thrown, null, Outcome, Error}
use systemish.HugeAlloc.Inv.{Inv, AllTaken, construct-Inv}
use systemish.HugeAlloc.Ends.{Ends}
use systemish.HugeAlloc.Reserve.{RawResult, alloc_raw-RawResult, with_region-Inv}
use systemish.HugeAlloc.Take.{Served}
use systemish.HugeAlloc.Grow.{Leaves, doubled}
use systemish.HugeAlloc.Alloc.{alloc-Ends}
use systemish.HugeAlloc.Free.{free_buf-Inv}
use systemish.HugeAlloc.Classes.{BsrLaw}

-- What an action that has returned satisfies.
ended :
    {A : Type 0} (P : A → HugeAlloc → Type 0) (Q : Error → HugeAlloc → Type 0) (W : Type 0)
    (r : Outcome A) (a : A) (t : HugeAlloc)
    → Ends P Q W r
    → r ≡ ok a t
    → P a t
ended P Q W r a t h e = subst (Ends P Q W) e h

-- What an action that has thrown leaves behind.
threw :
    {A : Type 0} (P : A → HugeAlloc → Type 0) (Q : Error → HugeAlloc → Type 0) (W : Type 0)
    (r : Outcome A) (x : Error) (t : HugeAlloc)
    → Ends P Q W r
    → r ≡ thrown x t
    → Q x t
threw P Q W r x t h e = subst (Ends P Q W) e h

-- The user holds only buffers above the smallest class.
abbrev IsLarge : Buffer → Type 0
IsLarge b = min_class_size < b.class_size

-- What holds of the user's buffers.
abbrev Holds : HugeAlloc → List Buffer → Type 0
Holds s live = Inv s live × All IsLarge live

raw-Inv :
    (s t : HugeAlloc) (live : List Buffer) (size : ℕ) (b : Buffer)
    → Inv s live
    → RawResult size s b t
    → Inv t live
raw-Inv s t live size b inv (inl r) = subst (λ u. Inv u live) (sym r.kept) inv
raw-Inv s t live size b inv (inr g) =
    subst (λ u. Inv u live) (sym g.state)
      (with_region-Inv s live g.key b.buf size inv g.fresh g.paged)

refused-Inv :
    (s t : HugeAlloc) (live : List Buffer) (size : ℕ) (b : Buffer)
    → Inv s live
    → Served s live size b t
    → b.buf ≡ null
    → Inv t live
refused-Inv s t live size b inv (c, low, is, inl (_, same)) h =
    subst (λ u. Inv u live) (sym same) inv
refused-Inv s t live size b inv (c, low, is, inr handed) h = absurd (handed.of_class.1 h)

Served-Holds :
    (s t : HugeAlloc) (live : List Buffer) (size : ℕ) (b : Buffer)
    → All IsLarge live
    → min_class_size < size
    → Served s live size b t
    → b.buf ≢ null
    → Holds t (b ∷ live)
Served-Holds s t live size b large low (c, _, is, inl (h, _)) ne = absurd (ne h)
Served-Holds s t live size b large low (c, _, is, inr handed) ne =
    (handed.inv, (omega (arith, low, is.fits, handed.of_class.0), large))

doubled-Inv :
    (s : HugeAlloc) (live : List Buffer)
    → s.prev_allocation_size * 2 ≤ 2 ^ 47
    → Inv s live
    → Inv (doubled s) live
doubled-Inv s live low inv = record {
  classified = inv.classified;
  handed = inv.handed;
  owned = inv.owned;
  disjoint = inv.disjoint;
  sized = inv.sized;
  bounded = inv.bounded;
  reserved = inv.reserved;
  paged = inv.paged;
  counted = inv.counted;
  grown = omega (arith, inv.grown, low);
  limited = omega (arith, low);
}

freed-Holds :
    (bsrl : ℕ → ℕ) (law : BsrLaw bsrl) (s t : HugeAlloc) (xs ys : List Buffer) (b : Buffer)
    → Holds s (xs ++ b ∷ ys)
    → free_buf bsrl b s ≡ ok tt t
    → Holds t (xs ++ ys)
freed-Holds bsrl law s t xs ys b (inv, large) e =
    let rest = All-after IsLarge xs (b ∷ ys) large in
    let (u, run, after) = free_buf-Inv bsrl law s xs ys b inv rest.0 in
    (
      subst (λ v. Inv v (xs ++ ys)) (ok_state (sym run ∙ e)) after,
      All-append IsLarge xs ys (All-before IsLarge xs (b ∷ ys) large) rest.1,
    )
  where
    state_of : Outcome (Unit {0}) → HugeAlloc
    state_of (ok _ v) = v
    state_of _ = s

    ok_state : {u v : HugeAlloc} → ok (tt {0}) u ≡ ok tt v → u ≡ v
    ok_state h = ap state_of h

Step-Holds :
    (bsrl : ℕ → ℕ) (law : BsrLaw bsrl) (s t : HugeAlloc) (live held : List Buffer)
    → Holds s live
    → Step bsrl s live t held
    → Holds t held
Step-Holds bsrl law s t live _ (inv, large) (raw {b = b} size calls g e) = (
  raw-Inv s t live (round_up size) b inv (
      ended (RawResult (round_up size) s) (λ _ u. u ≡ s) (AllTaken calls) (alloc_raw size calls s) b
        t (alloc_raw-RawResult size calls s g) e),
  large,
)
Step-Holds bsrl law s t live _ (inv, large) (raw_thrown {e = x} size calls g e) = (
  subst (λ u. Inv u live)
      (sym (
        threw (RawResult (round_up size) s) (λ _ u. u ≡ s) (AllTaken calls) (alloc_raw size calls s)
          x t (alloc_raw-RawResult size calls s g) e))
      inv,
  large,
)
Step-Holds bsrl law s t live _ (inv, large) (refused {b = b} size calls low high g e h) = (
  refused-Inv s t live size b inv
      (ended (Served s live size) (Leaves s) (AllTaken calls) (alloc bsrl size calls s) b t
        (alloc-Ends bsrl law s live size calls inv low high g) e)
      h,
  large,
)
Step-Holds bsrl law s t live _ (inv, large) (served {b = b} size calls low high g e ne) =
    Served-Holds s t live size b large low
      (ended (Served s live size) (Leaves s) (AllTaken calls) (alloc bsrl size calls s) b t
        (alloc-Ends bsrl law s live size calls inv low high g) e)
      ne
Step-Holds bsrl law s t live _ (inv, large) (alloc_thrown {e = x} size calls low high room g e) = (
  subst (λ u. Inv u live)
      (sym (
        threw (Served s live size) (Leaves s) (AllTaken calls) (alloc bsrl size calls s) x t
          (alloc-Ends bsrl law s live size calls inv low high g) e))
      (doubled-Inv s live room inv),
  large,
)
Step-Holds bsrl law s t _ _ h (freed xs ys b e) = freed-Holds bsrl law s t xs ys b h e

Reached-Holds :
    (bsrl : ℕ → ℕ) (law : BsrLaw bsrl) (s : HugeAlloc) (live : List Buffer)
    → Reached bsrl s live
    → Holds s live
Reached-Holds bsrl law _ _ (new initial_size numa_node h) =
    (construct-Inv initial_size numa_node h, tt)
Reached-Holds bsrl law t held (next {s = s} {live = live} before step) =
    Step-Holds bsrl law s t live held (Reached-Holds bsrl law s live before) step

-- Whatever the user of a new allocator calls, in any order, the invariant holds, after calls that
-- throw as well. The sizes for `alloc` are above the smallest class and up to the largest one, the
-- system grants regions apart from each other, of 2 ^ 47 bytes at most in all, and an `alloc`
-- throws only while the doubled reservation is within that bound.
pub Reached-Inv :
    (bsrl : ℕ → ℕ) (law : BsrLaw bsrl) (s : HugeAlloc) (live : List Buffer)
    → Reached bsrl s live
    → Inv s live
Reached-Inv bsrl law s live reached = (Reached-Holds bsrl law s live reached).0
