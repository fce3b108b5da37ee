-- ===== src/HugeAlloc/Reserve.antt =====
-- Regions from the system in utils/huge_alloc.h: `alloc_raw` and `reserve_hugepages`.
use systemish.Base.{
  ℕ, zero, suc, ◌+◌, ◌*◌, ◌/◌, ◌%◌, ◌^◌, ◌≤◌, ◌≡◌, ◌≢◌, refl, arith, leb, ◌==◌, update, List, [],
  ◌∷◌, total, All, Bool, true, false, Bool-cases, inl, inr, ==_iff, ◌⊎◌,
}
use systemish.HugeAlloc.{
  hugepage_size, max_class_size, size_max, round_up, key_of, attach, try_keys, alloc_raw,
  add_buffers, add_region, reserve_hugepages,
}
use systemish.HugeAlloc.State.{
  Buffer, HugeAlloc, eexist, eacces, einval, enomem, other, created, Attempt, null,
}
use systemish.HugeAlloc.Weights.{
  covers, buffer_at, size_of, free_weight, free_weight-update, add_buffers-total, add_buffers-size,
}
use systemish.HugeAlloc.Inv.{Inv, IsOfClass, IsFresh, AllGrant, AllTaken, IsClassified-update}
use systemish.HugeAlloc.Ends.{Ends, Ends-wait, Ends-bind}

-- The state with one more region.
abbrev pub with_region : HugeAlloc → ℕ → ℕ → ℕ → HugeAlloc
with_region s key buf size = record s {
  shm_list = (record { shm_key = key; buf = buf; size = size }) ∷ s.shm_list;
  shm_reserved = (s.shm_reserved + size) % 2 ^ 64;
}

-- What `alloc_raw` returns: a null buffer and the state as it was, or a region of the rounded size.
pub record Granted (size : ℕ) (s : HugeAlloc) (b : Buffer) (s' : HugeAlloc) : Type 0 where
  pub key : ℕ
  pub fresh : IsFresh s b.buf size
  pub paged : size % hugepage_size ≡ 0
  pub whole : b.class_size ≡ size_max
  pub state : s' ≡ with_region s key b.buf size

pub record Refused (s : HugeAlloc) (b : Buffer) (s' : HugeAlloc) : Type 0 where
  pub is_null : b.buf ≡ null
  pub kept : s' ≡ s

abbrev pub RawResult : ℕ → HugeAlloc → Buffer → HugeAlloc → Type 0
RawResult size s b s' = Refused s b s' ⊎ Granted size s b s'

attach-Ends :
    (size key buf ret : ℕ) (s : HugeAlloc) (W : Type 0)
    → size % hugepage_size ≡ 0
    → IsFresh s buf size
    → Ends (RawResult size s) (λ e s'. s' ≡ s) W (attach size key buf ret s)
unfolding attach
attach-Ends size key buf ret s W pages fresh = elim (Bool-cases (buf == null)) [
  | inl is_null ↦ absurd (fresh.0 ((==_iff buf null).0 is_null))
  | inr real ↦ elim (Bool-cases (ret == 0)) [
    | inl bound ↦
        rw (real, bound, (==_iff (size % hugepage_size) 0).1 pages)
          (inr (record { key = key; fresh = fresh; paged = pages; whole = refl; state = refl }))
    | inr unbound ↦ rw (real, unbound) refl
  ]
]

try_keys-Ends :
    (size : ℕ) (calls : List Attempt) (s : HugeAlloc)
    → size % hugepage_size ≡ 0
    → AllGrant s size calls
    → Ends (RawResult size s) (λ e s'. s' ≡ s) (AllTaken calls) (try_keys size calls s)
unfolding try_keys
try_keys-Ends size [] s pages g = tt
try_keys-Ends size ((rand, eexist) ∷ calls) s pages (h, g) =
    Ends-wait (RawResult size s) (λ e s'. s' ≡ s) (AllTaken calls)
      (AllTaken ((rand, eexist) ∷ calls)) (λ all. (refl, all)) (try_keys size calls s)
      (try_keys-Ends size calls s pages g)
try_keys-Ends size ((rand, eacces) ∷ calls) s pages (h, g) = refl
try_keys-Ends size ((rand, einval) ∷ calls) s pages (h, g) = refl
try_keys-Ends size ((rand, enomem) ∷ calls) s pages (h, g) =
    inl (record { is_null = refl; kept = refl })
try_keys-Ends size ((rand, other) ∷ calls) s pages (h, g) = refl
try_keys-Ends size ((rand, created buf ret) ∷ calls) s pages (h, g) =
    attach-Ends size (key_of rand) buf ret s (AllTaken ((rand, created buf ret) ∷ calls)) pages h

round_up-pages : (size : ℕ) → round_up size % hugepage_size ≡ 0
unfolding round_up
round_up-pages size = omega arith

-- The region has the rounded size, of whatever size that is.
pub alloc_raw-RawResult :
    (size : ℕ) (calls : List Attempt) (s : HugeAlloc)
    → AllGrant s (round_up size) calls
    → Ends (RawResult (round_up size) s) (λ e s'. s' ≡ s) (AllTaken calls) (alloc_raw size calls s)
unfolding alloc_raw round_up
alloc_raw-RawResult size calls s g = try_keys-Ends (round_up size) calls s (round_up-pages size) g

-- A region keeps the invariant.
pub with_region-Inv :
    (s : HugeAlloc) (live : List Buffer) (key buf size : ℕ)
    → Inv s live
    → IsFresh s buf size
    → size % hugepage_size ≡ 0
    → Inv (with_region s key buf size) live
with_region-Inv s live key buf size inv fresh pages = record {
  classified = inv.classified;
  handed = inv.handed;
  owned = λ address. omega (arith, inv.owned address);
  disjoint = λ address. omega (arith, fresh.2 address);
  sized = omega (arith, inv.sized);
  bounded = omega (arith, fresh.1);
  reserved = omega (arith, inv.reserved, inv.bounded, fresh.1);
  paged = omega (arith, inv.reserved, inv.bounded, fresh.1, inv.paged);
  counted = inv.counted;
  grown = inv.grown;
  limited = inv.limited;
}

pub round_up-le : (size : ℕ) → size ≤ 2 ^ 48 → size ≤ round_up size
unfolding round_up
round_up-le size h = omega arith

add_buffers-IsOfClass :
    (buf n : ℕ) (free : List Buffer)
    → buf ≢ null
    → All (IsOfClass 17) free
    → All (IsOfClass 17) (add_buffers buf n free)
unfolding add_buffers
add_buffers-IsOfClass buf zero free ne h = h
add_buffers-IsOfClass buf (suc n) free ne h =
    ((omega arith, λ e. ne (omega (arith, e))), add_buffers-IsOfClass buf n free ne h)

-- The buffers of a new region join the free ones of the largest class.
abbrev pub with_buffers : HugeAlloc → ℕ → ℕ → ℕ → ℕ → HugeAlloc
with_buffers s key buf size n = record (with_region s key buf size) {
  freelist = update s.freelist 17 (add_buffers buf n (s.freelist 17));
}

pub with_buffers-Inv :
    (s : HugeAlloc) (live : List Buffer) (key buf size n : ℕ)
    → Inv s live
    → IsFresh s buf size
    → size % hugepage_size ≡ 0
    → n * max_class_size ≤ size
    → Inv (with_buffers s key buf size n) live
with_buffers-Inv s live key buf size n inv fresh pages fits = record {
  classified =
      IsClassified-update s.freelist 17 (add_buffers buf n (s.freelist 17)) inv.classified
        (add_buffers-IsOfClass buf n (s.freelist 17) fresh.0 (inv.classified 17 (omega arith)));
  handed = inv.handed;
  owned = λ address. omega (
    arith,
    inv.owned address,
    more (buffer_at address),
    add_buffers-total address buf n (s.freelist 17),
    inside address,
  );
  disjoint = λ address. omega (arith, fresh.2 address);
  sized = omega (arith, inv.sized, more size_of, add_buffers-size buf n (s.freelist 17));
  bounded = omega (arith, fresh.1);
  reserved = omega (arith, inv.reserved, inv.bounded, fresh.1);
  paged = omega (arith, inv.reserved, inv.bounded, fresh.1, inv.paged);
  counted = inv.counted;
  grown = inv.grown;
  limited = inv.limited;
}
  where
    more :
        (w : Buffer → ℕ)
        → free_weight w (update s.freelist 17 (add_buffers buf n (s.freelist 17)))
            + total w (s.freelist 17)
          ≡ free_weight w s.freelist + total w (add_buffers buf n (s.freelist 17))
    more w = free_weight-update w s.freelist 17 (add_buffers buf n (s.freelist 17)) (omega arith)

    inside : (address : ℕ) → covers buf (n * max_class_size) address ≤ covers buf size address
    inside address = ground arith

-- What `reserve_hugepages` returns: false and the state as it was, or true and a state with new
-- buffers of the largest class.
pub record Grown (s s' : HugeAlloc) : Type 0 where
  pub key : ℕ
  pub buf : ℕ
  pub size : ℕ
  pub n : ℕ
  pub fresh : IsFresh s buf size
  pub paged : size % hugepage_size ≡ 0
  pub some_left : 1 ≤ n
  pub fits : n * max_class_size ≤ size
  pub enough : s.prev_allocation_size ≤ size
  pub state : s' ≡ with_buffers s key buf size n

abbrev pub ReserveResult : HugeAlloc → Bool → HugeAlloc → Type 0
ReserveResult s true s' = Grown s s'
ReserveResult s false s' = s' ≡ s

reserve_raw :
    (s : HugeAlloc) (b : Buffer) (s' : HugeAlloc) (W : Type 0)
    → max_class_size ≤ s.prev_allocation_size
    → s.prev_allocation_size ≤ 2 ^ 48
    → RawResult (round_up s.prev_allocation_size) s b s'
    → Ends (ReserveResult s) (λ e t. t ≡ s) W (add_region s.prev_allocation_size b s')
unfolding add_region
reserve_raw s b s' W low high (inl refused) = rw (refused.is_null, refused.kept) refl
reserve_raw s b s' W low high (inr granted) =
    rw (granted.state, real, room)
      (record {
        key = granted.key;
        buf = b.buf;
        size = round_up s.prev_allocation_size;
        n = s.prev_allocation_size / max_class_size;
        fresh = granted.fresh;
        paged = granted.paged;
        some_left = omega arith;
        fits = omega (arith, round_up-le s.prev_allocation_size high);
        enough = round_up-le s.prev_allocation_size high;
        state = refl;
      })
  where
    real : (b.buf == null) ≡ false
    real = ground (arith, granted.fresh.0)

    room : leb 1 (s.prev_allocation_size / max_class_size) ≡ true
    room = ground arith

-- `reserve_hugepages` of the size that `alloc` asks for.
pub reserve_hugepages-Ends :
    (s : HugeAlloc) (calls : List Attempt)
    → max_class_size ≤ s.prev_allocation_size
    → s.prev_allocation_size ≤ 2 ^ 48
    → AllGrant s (round_up s.prev_allocation_size) calls
    → Ends
        (ReserveResult s)
        (λ e t. t ≡ s)
        (AllTaken calls)
        (reserve_hugepages s.prev_allocation_size calls s)
unfolding reserve_hugepages
reserve_hugepages-Ends s calls low high g = rw large (
    Ends-bind (RawResult (round_up s.prev_allocation_size) s) (ReserveResult s) (λ e t. t ≡ s)
      (AllTaken calls) (alloc_raw s.prev_allocation_size calls s)
      (add_region s.prev_allocation_size) (alloc_raw-RawResult s.prev_allocation_size calls s g)
      (λ b s' r. reserve_raw s b s' (AllTaken calls) low high r))
  where
    large : leb max_class_size s.prev_allocation_size ≡ true
    large = ground arith
