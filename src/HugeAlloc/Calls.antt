-- ===== src/HugeAlloc/Calls.antt =====
-- The calls of a user of utils/huge_alloc.h, in any order.
use systemish.Base.{ℕ, ◌*◌, ◌^◌, ◌<◌, ◌≤◌, ◌≡◌, ◌≢◌, List, [], ◌∷◌, ◌++◌}
use systemish.HugeAlloc.{
  construct, min_class_size, max_class_size, round_up, alloc_raw, alloc, free_buf,
}
use systemish.HugeAlloc.State.{Buffer, HugeAlloc, Error, Attempt, ok, thrown, null}
use systemish.HugeAlloc.Inv.{AllGrant}

-- One call, and the buffers that the user holds before and after it. The system grants regions as
-- `AllGrant` says, and the user frees only what it holds. A call that throws leaves the user with
-- what it held; when that is `alloc`, the doubled size of its reservation stays behind.
pub data Step (bsrl : ℕ → ℕ) : HugeAlloc → List Buffer → HugeAlloc → List Buffer → Type 0 where
  raw :
      {s t : HugeAlloc} {live : List Buffer} {b : Buffer} (size : ℕ) (calls : List Attempt)
      → AllGrant s (round_up size) calls
      → alloc_raw size calls s ≡ ok b t
      → Step bsrl s live t live
  raw_thrown :
      {s t : HugeAlloc} {live : List Buffer} {e : Error} (size : ℕ) (calls : List Attempt)
      → AllGrant s (round_up size) calls
      → alloc_raw size calls s ≡ thrown e t
      → Step bsrl s live t live
  refused :
      {s t : HugeAlloc} {live : List Buffer} {b : Buffer} (size : ℕ) (calls : List Attempt)
      → min_class_size < size
      → size ≤ max_class_size
      → AllGrant s (round_up (s.prev_allocation_size * 2)) calls
      → alloc bsrl size calls s ≡ ok b t
      → b.buf ≡ null
      → Step bsrl s live t live
  served :
      {s t : HugeAlloc} {live : List Buffer} {b : Buffer} (size : ℕ) (calls : List Attempt)
      → min_class_size < size
      → size ≤ max_class_size
      → AllGrant s (round_up (s.prev_allocation_size * 2)) calls
      → alloc bsrl size calls s ≡ ok b t
      → b.buf ≢ null
      → Step bsrl s live t (b ∷ live)
  alloc_thrown :
      {s t : HugeAlloc} {live : List Buffer} {e : Error} (size : ℕ) (calls : List Attempt)
      → min_class_size < size
      → size ≤ max_class_size
      → s.prev_allocation_size * 2 ≤ 2 ^ 47
      → AllGrant s (round_up (s.prev_allocation_size * 2)) calls
      → alloc bsrl size calls s ≡ thrown e t
      → Step bsrl s live t live
  freed :
      {s t : HugeAlloc} (xs ys : List Buffer) (b : Buffer)
      → free_buf bsrl b s ≡ ok tt t
      → Step bsrl s (xs ++ b ∷ ys) t (xs ++ ys)

-- A state, and what the user holds, after some calls on a new allocator.
pub data Reached (bsrl : ℕ → ℕ) : HugeAlloc → List Buffer → Type 0 where
  new :
      (initial_size numa_node : ℕ)
      → initial_size ≤ 2 ^ 47
      → Reached bsrl (construct initial_size numa_node) []
  next :
      {s t : HugeAlloc} {live held : List Buffer}
      → Reached bsrl s live
      → Step bsrl s live t held
      → Reached bsrl t held
