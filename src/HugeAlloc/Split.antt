-- ===== src/HugeAlloc/Split.antt =====
-- The splits of utils/huge_alloc.h, the buffer that a class gives, and the search for a class.
use systemish.Base.{
  ℕ, zero, suc, ◌+◌, ◌-◌, ◌/◌, ◌≤◌, ◌<◌, ◌≡◌, refl, ap, ◌∙◌, sym, arith, ltb, leb, ◌==◌, update,
  List, [], ◌∷◌, All, true, false, Bool-cases, inl, inr, ==_iff, is_empty, dec_lt,
}
use mathlib.Core.Path.{subst}
use systemish.HugeAlloc.{
  class_max_size, num_classes, split, split_back, take_back, split_down, alloc_from_class,
  find_class,
}
use systemish.HugeAlloc.State.{Buffer, HugeAlloc, ok, bind}
use systemish.HugeAlloc.Weights.{
  FreeList, buffer, buffer_at, size_of, split_free, free_weight-split, buffer_at-IsAdditive,
  size_of-IsAdditive,
}
use systemish.HugeAlloc.Inv.{Inv, IsOfClass, IsClassified-update, taken, taken-Inv}

pub some_buffer :
    (l : List Buffer) → is_empty l ≡ false → (b : Buffer) × (rest : List Buffer) × (l ≡ b ∷ rest)
some_buffer [] h = cc
some_buffer (b ∷ rest) h = (b, rest, refl)

pub no_buffer : (l : List Buffer) → is_empty l ≡ true → l ≡ []
no_buffer [] h = refl
no_buffer (b ∷ rest) h = cc

split_run :
    (s : HugeAlloc) (c : ℕ) (b : Buffer) (rest : List Buffer)
    → s.freelist (suc c) ≡ b ∷ rest
    → s.freelist c ≡ []
    → b.class_size ≡ class_max_size (suc c)
    → split (suc c) s ≡ ok tt (record s { freelist = split_free s.freelist c b rest })
unfolding split
split_run s c b rest at below size =
    rw positive (ap (λ l. split_back (suc c) l s) at ∙ rw (previous, below, fits))
  where
    positive : leb 1 (suc c) ≡ true
    positive = ground arith

    previous : suc c - 1 ≡ c
    previous = omega arith

    fits : (b.class_size == class_max_size (suc c)) ≡ true
    fits = (==_iff b.class_size (class_max_size (suc c))).1 size

pub take_run :
    (s : HugeAlloc) (c : ℕ) (b : Buffer) (rest : List Buffer)
    → c < num_classes
    → s.freelist c ≡ b ∷ rest
    → b.class_size ≡ class_max_size c
    → alloc_from_class c s ≡ ok b (taken s c b rest)
unfolding alloc_from_class
take_run s c b rest low at size = rw known (
    ap (λ l. take_back c l s) at
    ∙ ap (λ n. ok (buffer b.buf n) (taken s c (buffer b.buf n) rest)) (sym size))
  where
    known : ltb c num_classes ≡ true
    known = ground arith

module _ (s : HugeAlloc) (live : List Buffer) (inv : Inv s live) where
  -- What a split of a buffer of class `suc c` leaves.
  split-Inv :
      (c : ℕ) (b : Buffer) (rest : List Buffer)
      → suc c < num_classes
      → s.freelist (suc c) ≡ b ∷ rest
      → s.freelist c ≡ []
      → (split (suc c) s ≡ ok tt (record s { freelist = split_free s.freelist c b rest }))
        × Inv (record s { freelist = split_free s.freelist c b rest }) live
  unfolding split
  split-Inv c b rest low at below = (
    split_run s c b rest at below is.0.0,
    record {
      classified =
          IsClassified-update (update s.freelist (suc c) rest) c
            (buffer (b.buf + b.class_size / 2) (b.class_size / 2)
              ∷ buffer b.buf (b.class_size / 2)
              ∷ s.freelist c)
            (IsClassified-update s.freelist (suc c) rest inv.classified is.1)
            (
              (omega (arith, is.0), λ e. is.0.1 (omega (arith, e))),
              ((omega (arith, is.0), is.0.1), inv.classified c (omega arith)),
            );
      handed = inv.handed;
      owned = λ address. omega (
        arith,
        inv.owned address,
        free_weight-split (buffer_at address) (buffer_at-IsAdditive address) s.freelist c b rest low
            at is.0.0,
      );
      disjoint = inv.disjoint;
      sized = omega (
        arith,
        inv.sized,
        free_weight-split size_of size_of-IsAdditive s.freelist c b rest low at is.0.0,
      );
      bounded = inv.bounded;
      reserved = inv.reserved;
      paged = inv.paged;
      counted = inv.counted;
      grown = inv.grown;
      limited = inv.limited;
    },
  )
    where
      is : All (IsOfClass (suc c)) (b ∷ rest)
      is = subst (All (IsOfClass (suc c))) at (inv.classified (suc c) low)

  pub take-Inv :
      (c : ℕ)
      → c < num_classes
      → is_empty (s.freelist c) ≡ false
      → (b : Buffer) × (t : HugeAlloc) × (alloc_from_class c s ≡ ok b t)
        × Inv t (b ∷ live)
        × IsOfClass c b
  unfolding alloc_from_class
  take-Inv c low some_left =
      let (b, rest, at) = some_buffer (s.freelist c) some_left in
      let is : All (IsOfClass c) (b ∷ rest) = subst (All (IsOfClass c)) at (inv.classified c low) in
      (
        b,
        taken s c b rest,
        take_run s c b rest low at is.0.0,
        taken-Inv s live b rest c inv low at,
        is.0,
      )

-- The loop of splits fills the class, if the classes between are empty.
pub split_down-Inv :
    (n c : ℕ) (s : HugeAlloc) (live : List Buffer)
    → Inv s live
    → c + n < num_classes
    → is_empty (s.freelist (c + n)) ≡ false
    → ((k : ℕ) → c ≤ k → k < c + n → is_empty (s.freelist k) ≡ true)
    → (t : HugeAlloc) × (split_down c n s ≡ ok tt t)
      × Inv t live
      × (is_empty (t.freelist c) ≡ false)
unfolding split_down
split_down-Inv zero c s live inv low some_left gaps =
    (s, refl, inv, ap (λ k. is_empty (s.freelist k)) (same c) ∙ some_left)
  where
    same : (k : ℕ) → k ≡ k + 0
    same k = omega arith
split_down-Inv (suc n) c s live inv low some_left gaps =
    let at : is_empty (s.freelist (suc (c + n))) ≡ false =
      ap (λ k. is_empty (s.freelist k)) (up c n) ∙ some_left in
    let (b, rest, e) = some_buffer (s.freelist (suc (c + n))) at in
    let none_below = no_buffer (s.freelist (c + n)) (gaps (c + n) (omega arith) (omega arith)) in
    let (run, inv') = split-Inv s live inv (c + n) b rest (omega arith) e none_below in
    let s' : HugeAlloc = record s { freelist = split_free s.freelist (c + n) b rest } in
    let (t, run', inv'', filled) =
      split_down-Inv n c s' live inv' (omega arith) (ground arith)
        (λ k above below. ground (arith, gaps k above (omega arith))) in
    (
      t,
      ap (λ k. bind (split k s) (λ _. split_down c n)) (sym (up c n))
          ∙ ap (λ r. bind r (λ _. split_down c n)) run
          ∙ run',
      inv'',
      filled,
    )
  where
    up : (k j : ℕ) → suc (k + j) ≡ k + suc j
    up k j = omega arith

-- `find_class` stops at the first class that has a free buffer.
pub record Found (free : FreeList) (first left r : ℕ) : Type 0 where
  pub from : first ≤ r
  pub upto : r ≤ first + left
  pub gaps : (k : ℕ) → first ≤ k → k < r → is_empty (free k) ≡ true
  pub stops : r < first + left → is_empty (free r) ≡ false

pub find_class-Found :
    (free : FreeList) (left first : ℕ) → Found free first left (find_class free left first)
unfolding find_class
find_class-Found free zero first = record {
  from = omega arith;
  upto = omega arith;
  gaps = λ k h h'. absurd (omega arith);
  stops = λ h. absurd (omega arith);
}
find_class-Found free (suc left) first = elim (Bool-cases (is_empty (free first))) [
  | inl e ↦
      let f = find_class-Found free left (first + 1) in
      rw e (record {
        from = omega (arith, f.from);
        upto = omega (arith, f.upto);
        gaps = λ k h h'. elim (dec_lt first k) [
          | yes above ↦ f.gaps k (omega arith) h'
          | no at ↦ let same : k ≡ first = omega arith in ap (λ j. is_empty (free j)) same ∙ e
        ];
        stops = λ h. f.stops (omega arith);
      })
  | inr e ↦ rw e (record {
    from = omega arith;
    upto = omega arith;
    gaps = λ k h h'. absurd (omega arith);
    stops = λ h. e;
  })
]
