-- ===== src/HugeAlloc/Classes.antt =====
-- The class of a size in utils/huge_alloc.h: by the index of its top bit, and by a loop.
use systemish.Base.{
  ℕ, zero, suc, ◌+◌, ◌-◌, ◌*◌, ◌/◌, ◌%◌, ◌^◌, ◌≤◌, ◌<◌, ◌≡◌, refl, ap, ◌∙◌, arith, ltb, some,
  dec_lt, Bool-cases, inl, inr, ltb→lt,
}
use native.Mathlib.Nat.{pow-le-pow_right}
use systemish.HugeAlloc.{
  class_max_size, min_class_size, max_class_size, num_classes, get_class, slow_loop, get_class_slow,
}
use systemish.HugeAlloc.State.{HugeAlloc, ok}

-- What `msb_index` relies on: the index of the top bit. The processor's manual leaves the result for
-- 0 open, so that nothing is said of it.
pub record BsrLaw (bsrl : ℕ → ℕ) : Type 0 where
  pub top : (y : ℕ) → 0 < y → y < 2 ^ 32 → (2 ^ bsrl y ≤ y) × (y < 2 ^ suc (bsrl y))

-- The smallest class whose buffers hold the size.
pub record IsLeastClass (size c : ℕ) : Type 0 where
  pub fits : size ≤ class_max_size c
  pub least : (d : ℕ) → d < c → class_max_size d < size

pub IsLeastClass-unique : (size c d : ℕ) → IsLeastClass size c → IsLeastClass size d → c ≡ d
IsLeastClass-unique size c d p q = elim (dec_lt c d) [
  | yes below ↦ absurd (omega (arith, p.fits, q.least c below))
  | no h ↦ elim (dec_lt d c) [
    | yes above ↦ absurd (omega (arith, q.fits, p.least d above))
    | no k ↦ omega arith
  ]
]

pub two_pow_le : (i j : ℕ) → i ≤ j → 2 ^ i ≤ 2 ^ j
two_pow_le i j h = pow-le-pow_right {n = 2} (omega arith) {i = i} {j = j} h

class_18 : (k x : ℕ) → 2 ^ k ≤ 2 * x → x < 2 ^ 17 → k < 18
class_18 k x h low = elim (dec_lt k 18) [
  | yes p ↦ p
  | no p ↦ absurd (omega (arith, two_pow_le 18 k (omega arith)))
]

module _ (bsrl : ℕ → ℕ) (law : BsrLaw bsrl) where
  abbrev index_of : ℕ → ℕ
  index_of size = bsrl ((size - 1) / 2 ^ 6 * 2 % 2 ^ 32)

  index_of-IsLeastClass :
      (size : ℕ)
      → min_class_size < size
      → size ≤ max_class_size
      → (index_of size < num_classes) × IsLeastClass size (index_of size)
  index_of-IsLeastClass size low high =
      let x : ℕ = (size - 1) / 2 ^ 6 in
      let y : ℕ = x * 2 % 2 ^ 32 in
      let (above, below) = law.top y (omega arith) (omega arith) in
      (
        class_18 (bsrl y) x (omega arith) (omega arith),
        record {
          fits = omega (arith, above, below);
          least = λ d h. omega (arith, two_pow_le (suc d) (bsrl y) h);
        },
      )

  -- Above the size of the smallest class, `get_class` returns the least class that holds the size,
  -- and none of its assertions fails.
  pub get_class-IsLeastClass :
      (size : ℕ) (s : HugeAlloc)
      → min_class_size < size
      → size ≤ max_class_size
      → (c : ℕ) × (get_class bsrl size s ≡ ok c s) × (c < num_classes) × IsLeastClass size c
  unfolding get_class
  get_class-IsLeastClass size s low high =
      let (small, is) = index_of-IsLeastClass size low high in
      (index_of size, ground arith, small, is)

slow_loop-IsLeastClass :
    (fuel size c lim : ℕ)
    → lim ≡ class_max_size c
    → size ≤ class_max_size (c + fuel)
    → ((d : ℕ) → d < c → class_max_size d < size)
    → (r : ℕ) × (slow_loop (suc fuel) size c lim ≡ some r) × IsLeastClass size r
unfolding slow_loop
slow_loop-IsLeastClass zero size c lim e high least =
    let h : size ≤ lim = omega (arith, ap class_max_size (same_class c)) in
    (c, ground (arith, h), record { fits = omega (arith, h); least = least })
  where
    same_class : (k : ℕ) → k + 0 ≡ k
    same_class k = omega arith
slow_loop-IsLeastClass (suc fuel) size c lim e high least = elim (Bool-cases (ltb lim size)) [
  | inl more ↦ rw more (
      slow_loop-IsLeastClass fuel size (c + 1) (lim * 2)
        (omega (arith, ap class_max_size (one_more c)))
        (omega (arith, ap class_max_size (moved c fuel)))
        (λ d h. elim (dec_lt d c) [
          | yes p ↦ least d p
          | no p ↦
              let same : d ≡ c = omega arith in
              omega (arith, ltb→lt lim size more, ap class_max_size same)
        ]))
  | inr done ↦ (c, rw done, record { fits = ground (arith, done); least = least })
]
  where
    one_more : (k : ℕ) → k + 1 ≡ suc k
    one_more k = omega arith

    moved : (k n : ℕ) → k + suc n ≡ k + 1 + n
    moved k n = omega arith

-- For every size above the smallest class, up to the largest one, the class by the top bit is the
-- class by the loop of `get_class_slow`, and that loop ends.
pub get_class-get_class_slow :
    (bsrl : ℕ → ℕ) (law : BsrLaw bsrl) (size : ℕ) (s : HugeAlloc)
    → min_class_size < size
    → size ≤ max_class_size
    → (c : ℕ) × (get_class bsrl size s ≡ ok c s) × (get_class_slow size ≡ some c)
unfolding get_class_slow
get_class-get_class_slow bsrl law size s low high =
    let (c, e, _, is) = get_class-IsLeastClass bsrl law size s low high in
    let (d, e', is') =
      slow_loop-IsLeastClass 17 size 0 64 refl (omega arith) (λ d h. absurd (omega arith)) in
    (c, e, slow d e' ∙ ap some (IsLeastClass-unique size d c is' is))
  where
    slow : (d : ℕ) → slow_loop 18 size 0 64 ≡ some d → get_class_slow size ≡ some d
    slow d e = ground (arith, e)
