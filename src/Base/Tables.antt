-- ===== src/Base/Tables.antt =====
-- Facts about bytes by evaluation over all cases.
use Prim.Native.Nat.{ℕ, zero, suc, ◌/◌, ◌%◌, ◌^◌, ◌<◌, bit_or}
use mathlib.Core.Path.{◌≡◌, refl}
use mathlib.Core.Logic.{◌≢◌}
use mathlib.Core.Bool.{Bool, true, false, ◌&&◌, ◌||◌, not}
use native.Mathlib.Omega.{arith}
use systemish.Base.Tests.{ltb, ◌==◌, if◌then◌else◌}

unfoldable pub all_below : ℕ → (ℕ → Bool) → Bool
all_below zero p = true
all_below (suc n) p = p n && all_below n p

pub all_below-at : (n : ℕ) (p : ℕ → Bool) (x : ℕ) → all_below n p ≡ true → x < n → p x ≡ true
unfolding all_below
all_below-at zero p x h lt = elim lt [ ]
all_below-at (suc n) p x h lt = ground (arith, all_below-at n p x)

-- bit `i` of `n`
unfoldable pub bit : ℕ → ℕ → Bool
bit n i = n / 2 ^ i % 2 == 1

beq : Bool → Bool → Bool
beq true b = b
beq false b = not b

beq-eq : (a b : Bool) → beq a b ≡ true → a ≡ b
unfolding beq
beq-eq a b h = ground arith

-- a bit that is not set, if there is one
unfoldable pub missing : ℕ → ℕ
missing n =
    if not (bit n 0)
    then 0
    else if not (bit n 1)
    then 1
    else if not (bit n 2)
    then 2
    else if not (bit n 3)
    then 3
    else if not (bit n 4)
    then 4
    else if not (bit n 5)
    then 5
    else if not (bit n 6)
    then 6
    else 7

or_table :
    all_below 256 (λ n. all_below 8 λ i.
      ltb (bit_or n (2 ^ i)) 256
      && all_below 8 (λ j. beq (bit (bit_or n (2 ^ i)) j) (j == i || bit n j)))
    ≡ true
unfolding all_below bit beq
or_table = refl

set_table : all_below 256 (λ n. all_below 8 λ i. not (bit n i) || bit_or n (2 ^ i) == n) ≡ true
unfolding all_below bit
set_table = refl

missing_table :
    all_below 256 (λ n. n == 255 || (not (bit n (missing n)) && ltb (missing n) 8)) ≡ true
unfolding all_below bit missing
missing_table = refl

full_table : all_below 8 (λ j. bit 255 j) ≡ true
unfolding all_below bit
full_table = refl

and-right : (a b : Bool) → (a && b) ≡ true → b ≡ true
and-right a b h = ground arith

module _ {n i : ℕ} (hn : n < 256) (hi : i < 8) where
  row :
      (ltb (bit_or n (2 ^ i)) 256
        && all_below 8 (λ j. beq (bit (bit_or n (2 ^ i)) j) (j == i || bit n j)))
      ≡ true
  row = all_below-at 8 _ i (all_below-at 256 _ n or_table hn) hi

  pub bit_or-lt : bit_or n (2 ^ i) < 256
  bit_or-lt = ground (arith, row)

  -- Setting bit `i` changes that bit alone.
  pub bit-bit_or : (j : ℕ) → j < 8 → bit (bit_or n (2 ^ i)) j ≡ (j == i || bit n j)
  bit-bit_or j hj = beq-eq _ _ (all_below-at 8 _ j (and-right _ _ row) hj)

  pub bit_or-set : bit n i ≡ true → bit_or n (2 ^ i) ≡ n
  bit_or-set h = ground (arith, h, all_below-at 8 _ i (all_below-at 256 _ n set_table hn) hi)

pub bit-full : (j : ℕ) → j < 8 → bit 255 j ≡ true
bit-full j h = all_below-at 8 _ j full_table h

pub bit-missing : (n : ℕ) → n < 256 → n ≢ 255 → (bit n (missing n) ≡ false) × (missing n < 8)
bit-missing n h ne = ground (arith, all_below-at 256 _ n missing_table h)

zero_table : all_below 8 (λ j. not (bit 0 j)) ≡ true
unfolding all_below bit
zero_table = refl

pub bit-zero : (j : ℕ) → j < 8 → bit 0 j ≡ false
bit-zero j h = ground (arith, all_below-at 8 _ j zero_table h)
