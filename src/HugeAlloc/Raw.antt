-- ===== src/HugeAlloc/Raw.antt =====
-- `alloc_raw` of utils/huge_alloc.h: the region that its user gets.
use systemish.Base.{ℕ, ◌+◌, ◌-◌, ◌*◌, ◌/◌, ◌%◌, ◌^◌, ◌≤◌, ◌<◌, ◌≡◌, ◌≢◌, arith, ◌⊎◌, inl, inr, List}
use systemish.HugeAlloc.{hugepage_size, size_max, round_up, alloc_raw}
use systemish.HugeAlloc.State.{Buffer, HugeAlloc, Attempt, null}
use systemish.HugeAlloc.Inv.{AllGrant, AllTaken}
use systemish.HugeAlloc.Ends.{Ends, Ends-map}
use systemish.HugeAlloc.Reserve.{Refused, RawResult, with_region, alloc_raw-RawResult}

-- The region of a raw allocation is recorded, and counted in whole hugepages: the fewest that hold
-- the size.
pub record Raw (size : ℕ) (s : HugeAlloc) (b : Buffer) (s' : HugeAlloc) : Type 0 where
  pub key : ℕ
  pub pages : ℕ
  pub enough : size ≤ pages * hugepage_size
  pub fewest : pages * hugepage_size < size + hugepage_size
  pub real : b.buf ≢ null
  pub whole : b.class_size ≡ size_max
  pub state : s' ≡ with_region s key b.buf (pages * hugepage_size)

-- A null buffer and the state as it was, or a region.
abbrev pub IsRaw : ℕ → HugeAlloc → Buffer → HugeAlloc → Type 0
IsRaw size s b s' = Refused s b s' ⊎ Raw size s b s'

-- Below the last hugepage of 64 bits, nothing wraps.
round_up-Raw :
    (size : ℕ) (s : HugeAlloc) (b : Buffer) (s' : HugeAlloc)
    → size ≤ 2 ^ 64 - hugepage_size
    → RawResult (round_up size) s b s'
    → IsRaw size s b s'
unfolding round_up
round_up-Raw size s b s' low (inl refused) = inl refused
round_up-Raw size s b s' low (inr granted) = inr (record {
  key = granted.key;
  pages = (size + hugepage_size - 1) % 2 ^ 64 / hugepage_size;
  enough = omega (arith, low);
  fewest = omega (arith, low);
  real = granted.fresh.0;
  whole = granted.whole;
  state = granted.state;
})

-- For a size up to the last hugepage below 2 ^ 64, `alloc_raw` returns a region of the fewest
-- hugepages that hold the size, which it records and counts, or, with the state unchanged, a null
-- buffer or an exception; it goes on for ever only if every key that it tries is taken, and its
-- assertion on the size does not fail. This holds where each region that the system creates is
-- mapped apart from the others, with 2 ^ 47 bytes at most in all.
pub alloc_raw-Ends :
    (size : ℕ) (calls : List Attempt) (s : HugeAlloc)
    → size ≤ 2 ^ 64 - hugepage_size
    → AllGrant s (round_up size) calls
    → Ends (IsRaw size s) (λ e s'. s' ≡ s) (AllTaken calls) (alloc_raw size calls s)
alloc_raw-Ends size calls s low g =
    Ends-map (RawResult (round_up size) s) (IsRaw size s) (λ e s'. s' ≡ s) (AllTaken calls)
      (alloc_raw size calls s) (λ b s' h. round_up-Raw size s b s' low h)
      (alloc_raw-RawResult size calls s g)
