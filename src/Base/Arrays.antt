-- ===== src/Base/Arrays.antt =====
-- Arrays as functions of the index, counted loops, and sums over a range.
use Prim.Native.Nat.{ℕ, zero, suc, ◌+◌, ◌%◌, ◌^◌, ◌≤◌, ◌<◌}
use mathlib.Core.Path.{◌≡◌, refl, ap, sym}
use mathlib.Core.Logic.{inl, inr, ◌≢◌}
use mathlib.Core.Bool.{true, false}
use native.Mathlib.Omega.{arith}
use native.Mathlib.Decide.{dec_lt}
use native.Mathlib.Nat.{add-zero, add-suc}
use systemish.Base.Tests.{◌==◌, ltb, if◌then◌else◌, Bool-cases, ==_iff}

-- `a[i] = v`
abbrev pub update {ℓ} : {A : Type ℓ} → (ℕ → A) → ℕ → A → ℕ → A
update f i v j = if j == i then v else f j

-- `for (i = 0; i < n; i++) body(i)`
unfoldable pub for_below {ℓ} : {S : Type ℓ} → ℕ → (ℕ → S → S) → S → S
for_below zero body s = s
for_below (suc n) body s = body n (for_below n body s)

-- The invariant rule of `for_below`.
pub for_below_inv {ℓ κ} :
    {S : Type ℓ} (P : ℕ → S → Type κ) (body : ℕ → S → S) (n : ℕ) (s : S)
    → P 0 s
    → ((i : ℕ) (t : S) → i < n → P i t → P (suc i) (body i t))
    → P n (for_below n body s)
unfolding for_below
for_below_inv P body zero s base keep = base
for_below_inv P body (suc n) s base keep =
    keep n (for_below n body s) (omega arith)
      (for_below_inv P body n s base (λ i t h. keep i t (omega arith)))

-- Two bodies that agree in each round.
pub for_below-eq {ℓ} :
    {S : Type ℓ} (n : ℕ) (f g : ℕ → S → S) (s : S)
    → ((i : ℕ) (t : S) → i < n → f i t ≡ g i t)
    → for_below n f s ≡ for_below n g s
unfolding for_below
for_below-eq zero f g s h = refl
for_below-eq (suc n) f g s h =
    λ k. h n (for_below-eq n f g s (λ i t p. h i t (omega arith)) k) (omega arith) k

-- `for (i = 0; i < n; i++) a[i] = f(i)`
unfoldable pub fill {ℓ} : {A : Type ℓ} → ℕ → (ℕ → A) → (ℕ → A) → ℕ → A
fill n f a = for_below n (λ i b. update b i (f i)) a

module _ {A : Type 0} (f a : ℕ → A) where
  pub fill-below : (n i : ℕ) → i < n → fill n f a i ≡ f i
  unfolding fill for_below
  fill-below zero i h = elim h [ ]
  fill-below (suc n) i h = ground (arith, fill-below n i)

  pub fill-above : (n i : ℕ) → n ≤ i → fill n f a i ≡ a i
  unfolding fill for_below
  fill-above zero i h = refl
  fill-above (suc n) i h = ground (arith, fill-above n i)

-- f 0 + … + f (n - 1)
unfoldable pub sum_below : ℕ → (ℕ → ℕ) → ℕ
sum_below zero f = 0
sum_below (suc n) f = sum_below n f + f n

pub sum_below-ext :
    (n : ℕ) (f g : ℕ → ℕ) → ((i : ℕ) → i < n → f i ≡ g i) → sum_below n f ≡ sum_below n g
unfolding sum_below
sum_below-ext zero f g h = refl
sum_below-ext (suc n) f g h =
    omega (arith, h n (omega arith), sum_below-ext n f g (λ i p. h i (omega arith)))

pub sum_below-zero : (n : ℕ) (f : ℕ → ℕ) → ((i : ℕ) → i < n → f i ≡ 0) → sum_below n f ≡ 0
unfolding sum_below
sum_below-zero zero f h = refl
sum_below-zero (suc n) f h =
    omega (arith, h n (omega arith), sum_below-zero n f (λ i p. h i (omega arith)))

-- Two families that agree but at `k`.
pub sum_below-change :
    (n : ℕ) (f g : ℕ → ℕ) (k : ℕ)
    → k < n
    → ((i : ℕ) → i < n → i ≢ k → f i ≡ g i)
    → sum_below n f + g k ≡ sum_below n g + f k
unfolding sum_below
sum_below-change zero f g k h same = elim h [ ]
sum_below-change (suc n) f g k h same = elim (dec_lt k n) [
  | yes below ↦ omega (
    arith,
    sum_below-change n f g k below (λ i p q. same i (omega arith) q),
    same n (omega arith) (omega arith),
  )
  | no last ↦
      let e : k ≡ n = omega arith in
      omega (arith, sum_below-ext n f g (λ i p. same i (omega arith) (omega arith)), ap f e, ap g e)
]

pub sum_below-add :
    (n m : ℕ) (f : ℕ → ℕ) → sum_below (n + m) f ≡ sum_below n f + sum_below m (λ i. f (n + i))
unfolding sum_below
sum_below-add n zero f = simp add-zero
sum_below-add n (suc m) f = rw add-suc (omega (arith, sum_below-add n m f))

-- `for (i = 0; i < n; i++) sum += f(i)` with 32-bit wrap-around
pub for_below-sum :
    (n : ℕ) (f : ℕ → ℕ) (s : ℕ)
    → s < 2 ^ 32
    → for_below n (λ i t. (t + f i) % 2 ^ 32) s ≡ (s + sum_below n f) % 2 ^ 32
unfolding for_below sum_below
for_below-sum zero f s h = omega arith
for_below-sum (suc n) f s h = omega (arith, for_below-sum n f s h)

-- A loop that writes each cell below `n` once, from its old value.
pub for_below-cells :
    {A : Type 0} (n : ℕ) (f : ℕ → A → A) (s : ℕ → A) (i : ℕ)
    → for_below n (λ j t. update t j (f j (t j))) s i ≡ (if ltb i n then f i (s i) else s i)
unfolding for_below
for_below-cells zero f s i = ground arith
for_below-cells (suc n) f s i = elim (Bool-cases (i == n)) [
  | inl at ↦
      let e = (==_iff i n).0 at in
      let low : ltb i (suc n) ≡ true = ground (arith, e) in
      let off : ltb n n ≡ false = ground arith in
      rw (at, low, for_below-cells n f s n, off) (ap (λ k. f k (s k)) (sym e))
  | inr ne ↦
      let same : ltb i (suc n) ≡ ltb i n = ground (arith, ne) in
      rw (ne, same) (for_below-cells n f s i)
]

pub sum_below-plus :
    (n : ℕ) (f g : ℕ → ℕ) → sum_below n (λ i. f i + g i) ≡ sum_below n f + sum_below n g
unfolding sum_below
sum_below-plus zero f g = refl
sum_below-plus (suc n) f g = omega (arith, sum_below-plus n f g)

pub sum_below-mod :
    (n : ℕ) (f : ℕ → ℕ) → sum_below n (λ i. f i % 2 ^ 32) % 2 ^ 32 ≡ sum_below n f % 2 ^ 32
unfolding sum_below
sum_below-mod zero f = refl
sum_below-mod (suc n) f = omega (arith, sum_below-mod n f)

pub le-sum_below : (n : ℕ) (f : ℕ → ℕ) (i : ℕ) → i < n → f i ≤ sum_below n f
unfolding sum_below
le-sum_below zero f i h = elim h [ ]
le-sum_below (suc n) f i h = elim (Bool-cases (i == n)) [
  | inl at ↦ omega (arith, ap f ((==_iff i n).0 at))
  | inr ne ↦ omega (arith, le-sum_below n f i (ground (arith, ne)))
]

-- Two members of the sum.
pub add-le-sum_below : (n : ℕ) (f : ℕ → ℕ) (i j : ℕ) → i < j → j < n → f i + f j ≤ sum_below n f
unfolding sum_below
add-le-sum_below zero f i j h k = elim k [ ]
add-le-sum_below (suc n) f i j h k = elim (Bool-cases (j == n)) [
  | inl at ↦
      let e = (==_iff j n).0 at in omega (arith, ap f e, le-sum_below n f i (omega (arith, e)))
  | inr ne ↦ omega (arith, add-le-sum_below n f i j h (ground (arith, ne)))
]
