-- ===== src/Examples/HugeAlloc.antt =====
-- Runs of utils/huge_alloc.h, with an index of the top bit that halves the number.

use systemish.HugeAlloc.Free.{alloc-free_buf}
use systemish.HugeAlloc.Delete.{Answer}
use systemish.HugeAlloc.{
  construct, round_up, alloc_class, find_class, grow, reserve_hugepages, alloc_raw, try_keys,
  split_and_take, split_down, split, add_buffers, alloc_from_class, get_class, get_class_slow,
  alloc, free_buf, size_max, key_of,
}
use native.Mathlib.Nat.{pow-le-pow_right}
use systemish.HugeAlloc.Calls.{Reached, new, next, raw}
use systemish.HugeAlloc.Run.{Reached-Inv}
use systemish.HugeAlloc.Raw.{IsRaw, alloc_raw-Ends}
use systemish.HugeAlloc.Alloc.{alloc-Ends}
use systemish.HugeAlloc.Grow.{Leaves}
use systemish.HugeAlloc.Reserve.{with_buffers-Inv, with_region, with_buffers}
use systemish.HugeAlloc.Take.{Served}
use systemish.HugeAlloc.{alloc_raw, get_class, alloc, construct}
use systemish.HugeAlloc.Inv.{AllGrant, taken-Inv, taken, AllTaken, construct-Inv, Inv, IsFresh}
use systemish.HugeAlloc.Ends.{Ends}
use systemish.Base.{
  ◌-◌, none, some, Option, ℕ, zero, suc, ◌+◌, ◌*◌, ◌/◌, ◌^◌, ◌≤◌, ◌<◌, ◌≡◌, refl, arith, leb, inl,
  inr, Bool-cases, false, List, [], ◌∷◌, if◌then◌else◌,
}
use systemish.HugeAlloc.State.{
  ◌>>◌, Region, Outcome, HugeAlloc, Buffer, Attempt, eexist, created, ok,
}
use systemish.HugeAlloc.Classes.{get_class-get_class_slow, BsrLaw, IsLeastClass}

-- The index of the top bit of a number below `2 ^ fuel`.
abbrev top_bit : ℕ → ℕ → ℕ
top_bit zero y = 0
top_bit (suc fuel) y = let rest = top_bit fuel (y / 2) in if leb y 1 then 0 else suc rest

doubled_bounds :
    (y k : ℕ) → 2 ≤ y → 2 ^ k ≤ y / 2 → y / 2 < 2 ^ suc k → (2 ^ suc k ≤ y) × (y < 2 ^ suc (suc k))
doubled_bounds y k h above below = (omega arith, omega arith)

top_bit_lem :
    (fuel y : ℕ) → 0 < y → y < 2 ^ fuel → (2 ^ top_bit fuel y ≤ y) × (y < 2 ^ suc (top_bit fuel y))
top_bit_lem zero y low high = absurd (omega arith)
top_bit_lem (suc fuel) y low high = elim (Bool-cases (leb y 1)) [
  | inl small ↦ rw small (ground (arith, small), ground (arith, small))
  | inr big ↦
      let (above, below) = top_bit_lem fuel (y / 2) (ground (arith, big)) (omega arith) in
      rw big (doubled_bounds y (top_bit fuel (y / 2)) (two big) above below)
]
  where
    two : leb y 1 ≡ false → 2 ≤ y
    two h = ground (arith, h)

abbrev bsrl : ℕ → ℕ
bsrl = top_bit 32

bsrl-BsrLaw : BsrLaw bsrl
bsrl-BsrLaw = record { top = top_bit_lem 32 }

-- A new allocator, and a system whose second key is free.
abbrev start : HugeAlloc
start = construct 0 0

start-Inv : Inv start []
start-Inv = construct-Inv 0 0 (omega arith)

abbrev calls : List Attempt
calls = (7, eexist) ∷ (5, created (2 ^ 30) 0) ∷ []

get_class-get_class_slow_example :
    (c : ℕ) × (get_class bsrl 100 start ≡ ok c start) × (get_class_slow 100 ≡ some c)
get_class-get_class_slow_example =
    get_class-get_class_slow bsrl bsrl-BsrLaw 100 start (omega arith) (omega arith)

start-IsFresh : IsFresh start (2 ^ 30) (2 ^ 24)
unfolding construct
start-IsFresh = ((λ e. omega (arith, e)), omega arith, λ address. ground arith)

calls_granted : AllGrant start (round_up (2 ^ 24)) calls
unfolding round_up
calls_granted = (tt, (start-IsFresh, tt))

alloc_raw-Ends_example :
    Ends (IsRaw (2 ^ 24) start) (λ e s. s ≡ start) (AllTaken calls) (alloc_raw (2 ^ 24) calls start)
alloc_raw-Ends_example = alloc_raw-Ends (2 ^ 24) calls start (omega arith) calls_granted

alloc_granted : AllGrant start (round_up (start.prev_allocation_size * 2)) calls
unfolding construct
alloc_granted = calls_granted

alloc-Ends_example :
    Ends (Served start [] 100) (Leaves start) (AllTaken calls) (alloc bsrl 100 calls start)
alloc-Ends_example =
    alloc-Ends bsrl bsrl-BsrLaw start [] 100 calls start-Inv (omega arith) (omega arith)
      alloc_granted

-- What the allocator hands out first: 16 MB are reserved, and the last byte range is split.
abbrev first : Buffer
first = record { buf = 2 ^ 30 + 2 ^ 24 - 128; class_size = 128 }

abbrev result_of : Outcome Buffer → Option Buffer
result_of (ok b s) = some b
result_of _ = none

alloc_test : result_of (alloc bsrl 100 calls start) ≡ some first
unfolding alloc get_class alloc_class construct find_class grow reserve_hugepages alloc_raw try_keys
    round_up split_and_take split_down split add_buffers alloc_from_class
alloc_test = refl

-- One of two buffers of the largest class is in the user's hands.
abbrev big : Buffer
big = record { buf = 2 ^ 30 + 2 ^ 23; class_size = 2 ^ 23 }

abbrev rest : List Buffer
rest = record { buf = 2 ^ 30; class_size = 2 ^ 23 } ∷ []

abbrev reserved : HugeAlloc
reserved = with_buffers start 5 (2 ^ 30) (2 ^ 24) 2

abbrev held : HugeAlloc
held = taken reserved 17 big rest

held-Inv : Inv held (big ∷ [])
unfolding construct add_buffers
held-Inv =
    taken-Inv reserved [] big rest 17
      (with_buffers-Inv start [] 5 (2 ^ 30) (2 ^ 24) 2 start-Inv start-IsFresh refl (omega arith))
      (omega arith) refl

-- 5 MB need the largest class.
five-IsLeastClass : IsLeastClass 5000000 17
five-IsLeastClass = record {
  fits = omega arith;
  least =
      λ d h. omega (arith, pow-le-pow_right {n = 2} (omega arith) {i = d} {j = 16} (omega arith));
}

alloc-free_buf_example : (free_buf bsrl big >> alloc bsrl 5000000 calls) held ≡ ok big held
alloc-free_buf_example =
    alloc-free_buf bsrl bsrl-BsrLaw held [] [] big 17 5000000 calls held-Inv refl (omega arith)
      (omega arith) five-IsLeastClass

-- A raw allocation by a user who holds nothing.
abbrev raw_state : HugeAlloc
raw_state = with_region start 5 (2 ^ 30) (2 ^ 24)

raw_run :
    alloc_raw (2 ^ 24) calls start ≡ ok (record { buf = 2 ^ 30; class_size = size_max }) raw_state
unfolding alloc_raw try_keys round_up construct key_of
raw_run = refl

raw-Reached : Reached bsrl raw_state []
raw-Reached = next (new 0 0 (omega arith)) (raw (2 ^ 24) calls calls_granted raw_run)

Reached-Inv_example : Inv raw_state []
Reached-Inv_example = Reached-Inv bsrl bsrl-BsrLaw raw_state [] raw-Reached

abbrev fine : Region → Answer
fine r = record { shmid = some (r.shm_key + 100); shmctl_ret = 0; shmdt_ret = 0 }
