-- ===== src/HugeAlloc/Weights.antt =====
-- Sums over the free buffers of utils/huge_alloc.h, and what the moves of buffers do to them.
use systemish.Base.{
  ℕ, zero, suc, ◌+◌, ◌*◌, ◌/◌, ◌<◌, ◌≡◌, ap, ◌∙◌, arith, ltb, leb, ◌&&◌, if◌then◌else◌, update,
  List, ◌∷◌, total, sum_below, sum_below-change,
}
use systemish.HugeAlloc.{class_max_size, max_class_size, add_buffers}
use systemish.HugeAlloc.State.{Buffer, Region}

abbrev pub FreeList : Type 0
FreeList = ℕ → List Buffer

abbrev pub buffer : ℕ → ℕ → Buffer
buffer a n = record { buf = a; class_size = n }

-- 1 if the address lies in the range of `size` bytes from `buf` on, else 0
abbrev pub covers : ℕ → ℕ → ℕ → ℕ
covers buf size address = if leb buf address && ltb address (buf + size) then 1 else 0

abbrev pub buffer_at : ℕ → Buffer → ℕ
buffer_at address b = covers b.buf b.class_size address

abbrev pub region_at : ℕ → Region → ℕ
region_at address r = covers r.buf r.size address

abbrev pub size_of : Buffer → ℕ
size_of b = b.class_size

abbrev pub region_size : Region → ℕ
region_size r = r.size

-- The weight of a buffer is that of its halves.
abbrev pub IsAdditive : (Buffer → ℕ) → Type 0
IsAdditive w = (a n : ℕ) → w (buffer (a + n) n) + w (buffer a n) ≡ w (buffer a (2 * n))

pub buffer_at-IsAdditive : (address : ℕ) → IsAdditive (buffer_at address)
buffer_at-IsAdditive address a n = ground arith

pub size_of-IsAdditive : IsAdditive size_of
size_of-IsAdditive a n = omega arith

-- The weight of all free buffers.
unfoldable pub free_weight : (Buffer → ℕ) → FreeList → ℕ
free_weight w free = sum_below 18 (λ c. total w (free c))

-- A change of one class.
pub free_weight-update :
    (w : Buffer → ℕ) (free : FreeList) (c : ℕ) (l : List Buffer)
    → c < 18
    → free_weight w (update free c l) + total w (free c) ≡ free_weight w free + total w l
unfolding free_weight
free_weight-update w free c l low =
    sum_below-change 18 (λ k. total w (update free c l k)) (λ k. total w (free k)) c low
      (λ k _ ne. ground arith)
    ∙ ap (λ t. sum_below 18 (λ k. total w (free k)) + t) (ground arith)

-- The buffers of class `suc c` are those of `rest` and `b`, and `b` is split.
abbrev pub split_free : FreeList → ℕ → Buffer → List Buffer → FreeList
split_free free c b rest = update (update free (suc c) rest) c (
    buffer (b.buf + b.class_size / 2) (b.class_size / 2) ∷ buffer b.buf (b.class_size / 2) ∷ free c)

pub class_max_size-half : (c : ℕ) → class_max_size (suc c) ≡ 2 * (class_max_size (suc c) / 2)
class_max_size-half c = omega arith

pub free_weight-split :
    (w : Buffer → ℕ)
    → IsAdditive w
    → (free : FreeList) (c : ℕ) (b : Buffer) (rest : List Buffer) → suc c < 18
    → free (suc c) ≡ b ∷ rest
    → b.class_size ≡ class_max_size (suc c)
    → free_weight w (split_free free c b rest) ≡ free_weight w free
free_weight-split w additive free c b rest low at size = omega (
  arith,
  free_weight-update w free (suc c) rest low,
  free_weight-update w (update free (suc c) rest) c
      (buffer (b.buf + half) half ∷ buffer b.buf half ∷ free c) (omega arith),
  additive b.buf half,
  whole,
  ap (total w) at,
  ap (total w) below,
)
  where
    half : ℕ
    half = b.class_size / 2

    whole : w (buffer b.buf (2 * half)) ≡ w b
    whole = ap (λ n. w (buffer b.buf n)) (omega (arith, size))

    below : update free (suc c) rest c ≡ free c
    below = ground arith

-- The buffers of a region lie one after the other.
pub add_buffers-total :
    (address buf n : ℕ) (free : List Buffer)
    → total (buffer_at address) (add_buffers buf n free)
      ≡ covers buf (n * max_class_size) address + total (buffer_at address) free
unfolding add_buffers
add_buffers-total address buf zero free = ground arith
add_buffers-total address buf (suc n) free = ground (arith, add_buffers-total address buf n free)

pub add_buffers-size :
    (buf n : ℕ) (free : List Buffer)
    → total size_of (add_buffers buf n free) ≡ n * max_class_size + total size_of free
unfolding add_buffers
add_buffers-size buf zero free = omega arith
add_buffers-size buf (suc n) free = omega (arith, add_buffers-size buf n free)
