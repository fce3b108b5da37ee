-- ===== src/HugeAlloc/Inv.antt =====
-- The invariant of utils/huge_alloc.h, for the buffers that its user holds.
use systemish.Base.{
  ℕ, ◌+◌, ◌-◌, ◌%◌, ◌^◌, ◌≤◌, ◌<◌, ◌≡◌, ◌≢◌, refl, ap, sym, arith, ◌==◌, update, List, [], ◌∷◌,
  ◌++◌, total, All, Bool-cases, inl, inr, ==_iff, sum_below, total-append, All-append, All-before,
  All-after,
}
use mathlib.Core.Path.{subst}
use systemish.HugeAlloc.{class_max_size, max_class_size, hugepage_size, num_classes, construct}
use systemish.HugeAlloc.State.{Buffer, HugeAlloc, Shmget, eexist, created, Attempt, null}
use systemish.HugeAlloc.Weights.{
  FreeList, covers, buffer_at, region_at, size_of, region_size, free_weight, free_weight-update,
}

abbrev pub IsOfClass : ℕ → Buffer → Type 0
IsOfClass c b = (b.class_size ≡ class_max_size c) × (b.buf ≢ null)

-- What the user holds is a buffer of some class.
abbrev pub IsHanded : Buffer → Type 0
IsHanded b = (c : ℕ) × (c < num_classes) × IsOfClass c b

abbrev pub IsClassified : FreeList → Type 0
IsClassified free = (c : ℕ) → c < num_classes → All (IsOfClass c) (free c)

-- `live` are the buffers that `alloc` has returned and that have not been freed.
pub record Inv (s : HugeAlloc) (live : List Buffer) : Type 0 where
  pub classified : IsClassified s.freelist
  pub handed : All IsHanded live
  -- each byte belongs to one buffer at most, and that lies in a region
  pub owned :
      (address : ℕ)
      → free_weight (buffer_at address) s.freelist + total (buffer_at address) live
        ≤ total (region_at address) s.shm_list
  pub disjoint : (address : ℕ) → total (region_at address) s.shm_list ≤ 1
  pub sized : free_weight size_of s.freelist + total size_of live ≤ total region_size s.shm_list
  pub bounded : total region_size s.shm_list ≤ 2 ^ 47
  pub reserved : s.shm_reserved ≡ total region_size s.shm_list
  pub paged : s.shm_reserved % hugepage_size ≡ 0
  pub counted : s.user_alloc_tot ≡ total size_of live
  pub grown : max_class_size ≤ s.prev_allocation_size
  pub limited : s.prev_allocation_size ≤ 2 ^ 47

-- A region that the system grants: `shmat` succeeds, the region lies apart from the others, and
-- all of them together fit in the address space.
abbrev pub IsFresh : HugeAlloc → ℕ → ℕ → Type 0
IsFresh s buf size =
    (buf ≢ null)
    × (total region_size s.shm_list + size ≤ 2 ^ 47)
    × ((address : ℕ) → total (region_at address) s.shm_list + covers buf size address ≤ 1)

abbrev pub Grants : HugeAlloc → ℕ → Shmget → Type 0
Grants s size (created buf mbind_ret) = IsFresh s buf size
Grants s size _ = Unit {0}

abbrev pub AllGrant : HugeAlloc → ℕ → List Attempt → Type 0
AllGrant s size calls = All (λ (_, r). Grants s size r) calls

abbrev pub IsTaken : Shmget → Type 0
IsTaken r = r ≡ eexist

abbrev pub AllTaken : List Attempt → Type 0
AllTaken calls = All (λ (_, r). IsTaken r) calls

-- The invariant of a new allocator.
pub construct-Inv :
    (initial_size numa_node : ℕ) → initial_size ≤ 2 ^ 47 → Inv (construct initial_size numa_node) []
unfolding construct free_weight sum_below
construct-Inv initial_size numa_node h = record {
  classified = λ c low. tt;
  handed = tt;
  owned = λ address. omega arith;
  disjoint = λ address. omega arith;
  sized = omega arith;
  bounded = omega arith;
  reserved = refl;
  paged = refl;
  counted = refl;
  grown = ground arith;
  limited = ground arith;
}

-- No byte of a live buffer belongs to another buffer, free or live.
pub Inv-apart :
    (s : HugeAlloc) (xs ys : List Buffer) (b : Buffer) (address : ℕ)
    → Inv s (xs ++ b ∷ ys)
    → buffer_at address b ≡ 1
    → (total (buffer_at address) (xs ++ ys) ≡ 0)
      × (free_weight (buffer_at address) s.freelist ≡ 0)
      × (total (region_at address) s.shm_list ≡ 1)
Inv-apart s xs ys b address inv h = omega (
  arith,
  inv.owned address,
  inv.disjoint address,
  total-append (buffer_at address) xs (b ∷ ys),
  total-append (buffer_at address) xs ys,
)

-- A buffer moves from the user's hands to the free ones of its class.
abbrev pub put_back : HugeAlloc → ℕ → Buffer → HugeAlloc
put_back s c b = record s {
  freelist = update s.freelist c (b ∷ s.freelist c);
  user_alloc_tot = (s.user_alloc_tot + 2 ^ 64 - b.class_size) % 2 ^ 64;
}

abbrev pub taken : HugeAlloc → ℕ → Buffer → List Buffer → HugeAlloc
taken s c b rest = record s {
  freelist = update s.freelist c rest;
  user_alloc_tot = (s.user_alloc_tot + b.class_size) % 2 ^ 64;
}

pub IsClassified-update :
    (free : FreeList) (c : ℕ) (l : List Buffer)
    → IsClassified free
    → All (IsOfClass c) l
    → IsClassified (update free c l)
IsClassified-update free c l old new k low = elim (Bool-cases (k == c)) [
  | inl at ↦ rw at (subst (λ t. All (IsOfClass t) l) (sym ((==_iff k c).0 at)) new)
  | inr off ↦ rw off (old k low)
]

pub put_back-Inv :
    (s : HugeAlloc) (xs ys : List Buffer) (b : Buffer) (c : ℕ)
    → Inv s (xs ++ b ∷ ys)
    → c < num_classes
    → IsOfClass c b
    → Inv (put_back s c b) (xs ++ ys)
put_back-Inv s xs ys b c inv low is = record {
  classified =
      IsClassified-update s.freelist c (b ∷ s.freelist c) inv.classified (is, inv.classified c low);
  handed =
      All-append IsHanded xs ys (All-before IsHanded xs (b ∷ ys) inv.handed)
        (All-after IsHanded xs (b ∷ ys) inv.handed).1;
  owned = λ address. omega (arith, inv.owned address, moved (buffer_at address));
  disjoint = inv.disjoint;
  sized = omega (arith, inv.sized, moved size_of);
  bounded = inv.bounded;
  reserved = inv.reserved;
  paged = inv.paged;
  counted = omega (
    arith,
    inv.counted,
    inv.sized,
    inv.bounded,
    total-append size_of xs (b ∷ ys),
    total-append size_of xs ys,
  );
  grown = inv.grown;
  limited = inv.limited;
}
  where
    moved :
        (w : Buffer → ℕ)
        → free_weight w (update s.freelist c (b ∷ s.freelist c)) + total w (xs ++ ys)
          ≡ free_weight w s.freelist + total w (xs ++ b ∷ ys)
    moved w = omega (
      arith,
      free_weight-update w s.freelist c (b ∷ s.freelist c) low,
      total-append w xs (b ∷ ys),
      total-append w xs ys,
    )

pub taken-Inv :
    (s : HugeAlloc) (live : List Buffer) (b : Buffer) (rest : List Buffer) (c : ℕ)
    → Inv s live
    → c < num_classes
    → s.freelist c ≡ b ∷ rest
    → Inv (taken s c b rest) (b ∷ live)
taken-Inv s live b rest c inv low at = record {
  classified = IsClassified-update s.freelist c rest inv.classified is.1;
  handed = ((c, low, is.0), inv.handed);
  owned = λ address. omega (arith, inv.owned address, moved (buffer_at address));
  disjoint = inv.disjoint;
  sized = omega (arith, inv.sized, moved size_of);
  bounded = inv.bounded;
  reserved = inv.reserved;
  paged = inv.paged;
  counted = omega (arith, inv.counted, inv.sized, inv.bounded, moved size_of);
  grown = inv.grown;
  limited = inv.limited;
}
  where
    is : All (IsOfClass c) (b ∷ rest)
    is = subst (All (IsOfClass c)) at (inv.classified c low)

    moved :
        (w : Buffer → ℕ)
        → free_weight w (update s.freelist c rest) + total w (b ∷ live)
          ≡ free_weight w s.freelist + total w live
    moved w = omega (arith, free_weight-update w s.freelist c rest low, ap (total w) at)
