-- ===== src/HugeAlloc/Free.antt =====
-- `free_buf` of utils/huge_alloc.h, and what an allocation after it returns.
use systemish.Base.{
  ℕ, suc, ◌^◌, ◌≤◌, ◌<◌, ◌≡◌, refl, ap, ◌∙◌, sym, arith, ltb, leb, ◌==◌, update, List, ◌∷◌, ◌++◌,
  All-after, true, false, Bool-cases, inl, inr, ==_iff, is_empty, fun_ext, total-append,
}
use mathlib.Core.Path.{subst}
use systemish.HugeAlloc.{
  class_max_size, min_class_size, max_class_size, num_classes, free_buf, alloc, alloc_class,
}
use systemish.HugeAlloc.State.{Buffer, HugeAlloc, ok, Attempt, null, bind, ◌>>◌}
use systemish.HugeAlloc.Inv.{Inv, IsHanded, IsOfClass, put_back, put_back-Inv, taken}
use systemish.HugeAlloc.Weights.{size_of}
use systemish.HugeAlloc.Split.{take_run}
use systemish.HugeAlloc.Classes.{
  two_pow_le, BsrLaw, IsLeastClass, IsLeastClass-unique, get_class-IsLeastClass,
}

-- A class is the least one for its own size.
class-IsLeastClass : (c : ℕ) → IsLeastClass (class_max_size c) c
class-IsLeastClass c = record {
  fits = omega arith;
  least = λ d h. omega (arith, two_pow_le (suc d) c h, two_pow_le 0 d (omega arith));
}

free_buf_run :
    (bsrl : ℕ → ℕ) (law : BsrLaw bsrl) (s : HugeAlloc) (b : Buffer) (c : ℕ)
    → c < num_classes
    → IsOfClass c b
    → min_class_size < b.class_size
    → free_buf bsrl b s ≡ ok tt (put_back s c b)
unfolding free_buf
free_buf_run bsrl law s b c low is above =
    let (d, run, small, least) =
      get_class-IsLeastClass bsrl law b.class_size s above
        (omega (arith, is.0, two_pow_le c 17 (omega arith))) in
    rw (real, run, same d least, exact) refl
  where
    real : (b.buf == null) ≡ false
    real = elim (Bool-cases (b.buf == null)) [
      | inl h ↦ absurd (is.1 ((==_iff b.buf null).0 h))
      | inr h ↦ h
    ]

    same : (d : ℕ) → IsLeastClass b.class_size d → d ≡ c
    same d least =
        IsLeastClass-unique b.class_size d c least
          (subst (λ n. IsLeastClass n c) (sym is.0) (class-IsLeastClass c))

    exact : (class_max_size c == b.class_size) ≡ true
    exact = (==_iff (class_max_size c) b.class_size).1 (sym is.0)

-- A live buffer above the smallest class goes back: no assertion of `free_buf` fails, and the invariant holds for the rest.
pub free_buf-Inv :
    (bsrl : ℕ → ℕ) (law : BsrLaw bsrl) (s : HugeAlloc) (xs ys : List Buffer) (b : Buffer)
    → Inv s (xs ++ b ∷ ys)
    → min_class_size < b.class_size
    → (t : HugeAlloc) × (free_buf bsrl b s ≡ ok tt t) × Inv t (xs ++ ys)
free_buf-Inv bsrl law s xs ys b inv above =
    let (c, low, is) = (All-after IsHanded xs (b ∷ ys) inv.handed).0 in
    (put_back s c b, free_buf_run bsrl law s b c low is above, put_back-Inv s xs ys b c inv low is)

-- What a free has added, an allocation of the class takes again.
taken-put_back :
    (s : HugeAlloc) (b : Buffer) (c : ℕ)
    → s.user_alloc_tot < 2 ^ 64
    → b.class_size ≤ 2 ^ 64
    → taken (put_back s c b) c b (s.freelist c) ≡ s
taken-put_back s b c low small =
    ap (λ f. record (taken (put_back s c b) c b (s.freelist c)) { freelist = f }) (fun_ext same)
    ∙ ap (λ n. record s { user_alloc_tot = n }) (omega arith)
  where
    same :
        (k : ℕ) → update (update s.freelist c (b ∷ s.freelist c)) c (s.freelist c) k ≡ s.freelist k
    same k = elim (Bool-cases (k == c)) [
      | inl at ↦ rw at (ap s.freelist (sym ((==_iff k c).0 at)))
      | inr off ↦ rw off refl
    ]

alloc-put_back :
    (bsrl : ℕ → ℕ) (law : BsrLaw bsrl) (s : HugeAlloc) (b : Buffer) (c size : ℕ)
    (calls : List Attempt)
    → b.class_size ≡ class_max_size c
    → min_class_size < size
    → size ≤ max_class_size
    → IsLeastClass size c
    → alloc bsrl size calls (put_back s c b) ≡ ok b (taken (put_back s c b) c b (s.freelist c))
unfolding alloc alloc_class
alloc-put_back bsrl law s b c size calls at low high is =
    let (d, run, small, least) = get_class-IsLeastClass bsrl law size (put_back s c b) low high in
    let same : d ≡ c = IsLeastClass-unique size d c least is in
    let known : c < num_classes = omega (arith, small, same) in
    rw (fits, run, same, class_known known, filled)
      (take_run (put_back s c b) c b (s.freelist c) known top at)
  where
    fits : leb size max_class_size ≡ true
    fits = ground arith

    class_known : c < num_classes → ltb c num_classes ≡ true
    class_known h = ground arith

    top : (put_back s c b).freelist c ≡ b ∷ s.freelist c
    top = ground arith

    filled : is_empty ((put_back s c b).freelist c) ≡ false
    filled = ap is_empty top

-- In a state with the invariant, an allocation right after the free of a live buffer, of a size
-- above the smallest class that needs the same class, returns the buffer that was freed and the very
-- state from before.
pub alloc-free_buf :
    (bsrl : ℕ → ℕ) (law : BsrLaw bsrl) (s : HugeAlloc) (xs ys : List Buffer) (b : Buffer)
    (c size : ℕ) (calls : List Attempt)
    → Inv s (xs ++ b ∷ ys)
    → b.class_size ≡ class_max_size c
    → min_class_size < size
    → size ≤ max_class_size
    → IsLeastClass size c
    → (free_buf bsrl b >> alloc bsrl size calls) s ≡ ok b s
alloc-free_buf bsrl law s xs ys b c size calls inv at low high is =
    let (k, small, of_class) = (All-after IsHanded xs (b ∷ ys) inv.handed).0 in
    let same : k ≡ c =
      IsLeastClass-unique (class_max_size k) k c (class-IsLeastClass k)
        (subst (λ n. IsLeastClass n c) (sym at ∙ of_class.0) (class-IsLeastClass c)) in
    ap (λ r. bind r (λ _. alloc bsrl size calls))
      (free_buf_run bsrl law s b c (omega (arith, same)) (at, of_class.1)
        (omega (arith, at, low, is.fits)))
    ∙ alloc-put_back bsrl law s b c size calls at low high is
    ∙ ap (ok b) (taken-put_back s b c (omega (arith, inv.counted, inv.sized, inv.bounded)) below)
  where
    below : b.class_size ≤ 2 ^ 64
    below = omega (arith, inv.counted, inv.sized, inv.bounded, total-append size_of xs (b ∷ ys))
