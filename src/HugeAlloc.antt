-- ===== src/HugeAlloc.antt =====
-- utils/huge_alloc.h: an allocator with a list of free buffers for each class of sizes, which takes
-- hugepages from the system as shared memory.
-- Addresses and sizes are numbers. The calls of `shmget` that one allocation makes, with the random
-- keys that they try, are an argument. The instruction `bsrl` is the argument of a section.
pub mod State
pub mod Classes
pub mod Weights
pub mod Inv
pub mod Ends
pub mod Reserve
pub mod Split
pub mod Take
pub mod Grow
pub mod Alloc
pub mod Free
pub mod Calls
pub mod Raw
pub mod Run
pub mod Stats
pub mod Delete
use systemish.Base.{
  ℕ, zero, suc, ◌+◌, ◌-◌, ◌*◌, ◌/◌, ◌%◌, ◌^◌, ◌==◌, ltb, leb, if◌then◌else◌, not, ◌&&◌, update,
  Option, none, some, List, [], ◌∷◌, is_empty, Bool, true, false,
}
use State.{
  Buffer, Region, HugeAlloc, Error, Shmget, eexist, eacces, einval, enomem, other, created, Attempt,
  Outcome, ok, thrown, aborted, waiting, Action, give, ◌>>=◌, ◌>>◌, check, modify, permissions,
  size_limits, unexpected, shmat_failed, mbind_failed, null,
}

abbrev pub hugepage_size : ℕ
hugepage_size = 2 * 1024 * 1024

abbrev pub min_class_size : ℕ
min_class_size = 64

abbrev pub max_class_size : ℕ
max_class_size = 8 * 1024 * 1024

abbrev pub num_classes : ℕ
num_classes = 18

-- `kMinClassSize * (1ull << class_i)`
abbrev pub class_max_size : ℕ → ℕ
class_max_size class_i = min_class_size * 2 ^ class_i

-- SIZE_MAX
abbrev pub size_max : ℕ
size_max = 2 ^ 64 - 1

-- `round_up<kHugepageSize>`: the mask clears the low 21 bits.
unfoldable pub round_up : ℕ → ℕ
round_up x = (x + hugepage_size - 1) % 2 ^ 64 / hugepage_size * hugepage_size

-- The two constructors.
unfoldable pub construct : ℕ → ℕ → HugeAlloc
construct initial_size numa_node = record {
  shm_list = [];
  freelist = λ i. [];
  numa_node = numa_node;
  prev_allocation_size = if ltb initial_size max_class_size then max_class_size else initial_size;
  shm_reserved = 0;
  user_alloc_tot = 0;
}

unfoldable pub construct_default : ℕ → HugeAlloc
construct_default numa_node = record {
  shm_list = [];
  freelist = λ i. [];
  numa_node = numa_node;
  prev_allocation_size = max_class_size;
  shm_reserved = 0;
  user_alloc_tot = 0;
}

-- `std::abs(static_cast<int>(rand))`, as a pattern of 32 bits.
unfoldable pub key_of : ℕ → ℕ
key_of rand = let key = rand % 2 ^ 32 in if leb (2 ^ 31) key then 2 ^ 32 - key else key

-- What follows a `shmget` that has created the region: `shmat`, `mbind`, and the record of it,
-- whose constructor asserts that the size is a multiple of the hugepage size.
unfoldable pub attach : ℕ → ℕ → ℕ → ℕ → Action Buffer
attach size key shm_buf mbind_ret s =
    if shm_buf == null
    then thrown shmat_failed s
    else if not (mbind_ret == 0)
    then thrown mbind_failed s
    else if size % hugepage_size == 0
    then ok (record { buf = shm_buf; class_size = size_max })
        (record s {
          shm_list = (record { shm_key = key; buf = shm_buf; size = size }) ∷ s.shm_list;
          shm_reserved = (s.shm_reserved + size) % 2 ^ 64;
        })
    else aborted

-- The loop over the keys; `size` is rounded up.
unfoldable pub try_keys : ℕ → List Attempt → Action Buffer
unfolding attach
try_keys size [] s = waiting
try_keys size ((rand, eexist) ∷ calls) s = try_keys size calls s
try_keys size ((rand, eacces) ∷ calls) s = thrown permissions s
try_keys size ((rand, einval) ∷ calls) s = thrown size_limits s
try_keys size ((rand, enomem) ∷ calls) s = ok (record { buf = null; class_size = 0 }) s
try_keys size ((rand, other) ∷ calls) s = thrown unexpected s
try_keys size ((rand, created shm_buf mbind_ret) ∷ calls) s =
    attach size (key_of rand) shm_buf mbind_ret s

unfoldable pub alloc_raw : ℕ → List Attempt → Action Buffer
alloc_raw size calls = try_keys (round_up size) calls

-- The loop of `reserve_hugepages`: `n` buffers of the largest class from `buf` on.
unfoldable pub add_buffers : ℕ → ℕ → List Buffer → List Buffer
add_buffers buf zero free = free
add_buffers buf (suc n) free =
    (record { buf = buf + n * max_class_size; class_size = max_class_size })
    ∷ add_buffers buf n free

-- What `reserve_hugepages` does with the buffer of `alloc_raw`.
unfoldable pub add_region : ℕ → Buffer → Action Bool
add_region size b s =
    if b.buf == null
    then ok false s
    else if leb 1 (size / max_class_size)
    then ok true (record s {
      freelist = update s.freelist 17 (add_buffers b.buf (size / max_class_size) (s.freelist 17));
    })
    else aborted

unfoldable pub reserve_hugepages : ℕ → List Attempt → Action Bool
unfolding add_region
reserve_hugepages size calls = do
  check (leb max_class_size size)
  b ← alloc_raw size calls
  add_region size b

-- `split`, with the buffers of its class.
unfoldable pub split_back : ℕ → List Buffer → Action (Unit {0})
split_back size_class [] s = aborted
split_back size_class (b ∷ rest) s =
    if is_empty (s.freelist (size_class - 1)) && b.class_size == class_max_size size_class
    then ok tt (record s {
      freelist = update (update s.freelist size_class rest) (size_class - 1) (
          (record { buf = b.buf + b.class_size / 2; class_size = b.class_size / 2 })
          ∷ (record { buf = b.buf; class_size = b.class_size / 2 })
          ∷ s.freelist (size_class - 1));
    })
    else aborted

unfoldable pub split : ℕ → Action (Unit {0})
unfolding split_back
split size_class s =
    if leb 1 size_class then split_back size_class (s.freelist size_class) s else aborted

-- `alloc_from_class`, with the buffers of the class. The assertion assigns the class size.
unfoldable pub take_back : ℕ → List Buffer → Action Buffer
take_back size_class [] s = aborted
take_back size_class (b ∷ rest) s =
    let b' = record b { class_size = class_max_size size_class } in
    ok b' (record s {
      freelist = update s.freelist size_class rest;
      user_alloc_tot = (s.user_alloc_tot + b'.class_size) % 2 ^ 64;
    })

unfoldable pub alloc_from_class : ℕ → Action Buffer
unfolding take_back
alloc_from_class size_class s =
    if ltb size_class num_classes then take_back size_class (s.freelist size_class) s else aborted

-- The first class from `next_class` on that has free buffers, with `left` classes to look at;
-- the class behind the last if there is none.
unfoldable pub find_class : (ℕ → List Buffer) → ℕ → ℕ → ℕ
find_class freelist zero next_class = next_class
find_class freelist (suc left) next_class =
    let rest = find_class freelist left (next_class + 1) in
    if is_empty (freelist next_class) then rest else next_class

-- The loop of splits from class `size_class + n` down to `size_class`.
unfoldable pub split_down : ℕ → ℕ → Action (Unit {0})
split_down size_class zero = give tt
split_down size_class (suc n) = split (size_class + suc n) >> split_down size_class n

-- `alloc` when neither its class nor a larger one has free buffers: the new `next_class`, or none
-- if the hugepages are used up.
unfoldable pub grow : List Attempt → Action (Option ℕ)
grow calls s =
    let size = s.prev_allocation_size * 2 % 2 ^ 64 in
    (reserve_hugepages size calls >>= λ success s'.
    if success
    then ok (some (num_classes - 1)) s'
    else ok none (record s' { prev_allocation_size = s'.prev_allocation_size / 2 }))
      (record s { prev_allocation_size = size })

-- `alloc` from `next_class` on.
unfoldable pub split_and_take : ℕ → Option ℕ → Action Buffer
split_and_take size_class none = give (record { buf = null; class_size = 0 })
split_and_take size_class (some next_class) = do
  check (ltb next_class num_classes)
  split_down size_class (next_class - size_class)
  alloc_from_class size_class

-- `alloc` on its class.
unfoldable pub alloc_class : ℕ → List Attempt → Action Buffer
alloc_class size_class calls s =
    if is_empty (s.freelist size_class)
    then elim (find_class s.freelist (17 - size_class) (size_class + 1) == num_classes) [
      | true ↦ (grow calls >>= split_and_take size_class) s
      | false ↦
          split_and_take size_class
            (some (find_class s.freelist (17 - size_class) (size_class + 1))) s
    ]
    else alloc_from_class size_class s

module _ (bsrl : ℕ → ℕ) where
  -- The index of the top bit, counted from 1: `x << 1` is an `int`.
  unfoldable pub msb_index : ℕ → Action ℕ
  msb_index x = check (ltb x ((2 ^ 31 - 1) / 2)) >> give (bsrl (x * 2 % 2 ^ 32))

  unfoldable pub get_class : ℕ → Action ℕ
  unfolding msb_index
  get_class size = check (leb 1 size && leb size max_class_size) >> msb_index ((size - 1) / 2 ^ 6)

  unfoldable pub alloc : ℕ → List Attempt → Action Buffer
  alloc size calls = do
    check (leb size max_class_size)
    size_class ← get_class size
    check (ltb size_class num_classes)
    alloc_class size_class calls

  unfoldable pub free_buf : Buffer → Action (Unit {0})
  free_buf b = do
    check (not (b.buf == null))
    size_class ← get_class b.class_size
    check (class_max_size size_class == b.class_size)
    modify (λ s. record s {
      freelist = update s.freelist size_class (b ∷ s.freelist size_class);
      user_alloc_tot = (s.user_alloc_tot + 2 ^ 64 - b.class_size) % 2 ^ 64;
    })

-- `get_class_slow`: the loop doubles the limit, at most `fuel` times.
unfoldable pub slow_loop : ℕ → ℕ → ℕ → ℕ → Option ℕ
slow_loop zero size size_class class_lim = none
slow_loop (suc fuel) size size_class class_lim =
    let rest = slow_loop fuel size (size_class + 1) (class_lim * 2) in
    if ltb class_lim size then rest else some size_class

unfoldable pub get_class_slow : ℕ → Option ℕ
unfolding slow_loop
get_class_slow size =
    if leb 1 size && leb size max_class_size
    then slow_loop num_classes size 0 min_class_size
    else none
