-- ===== src/Masstree/Sums.antt =====
-- The sums of masstree-example/index: `sum_in_range` after the insertions of `main`.
use systemish.Base.{
  ℕ, zero, suc, ◌+◌, ◌-◌, ◌*◌, ◌%◌, ◌^◌, ◌<◌, ◌≤◌, ◌≡◌, refl, ap, ◌∙◌, ltb, ◌==◌, true, false, List,
  [], ◌∷◌, arith,
}
use systemish.Masstree.{Table, IsTable, key_str, insert_keys, num_keys, visit, sum_in_range}
use systemish.Base.{dec_lt}
use systemish.Masstree.Scan.{IsScan, numbers, scan-insert_keys}

-- The sum of the first values of a list.
abbrev pub sum_of : ℕ → List ℕ → ℕ
sum_of zero rows = 0
sum_of (suc n) [] = 0
sum_of (suc n) (v ∷ rows) = v + sum_of n rows

visit-sum :
    (rows : List ℕ) (n k : ℕ)
    → suc n < 2 ^ 64
    → k < 2 ^ 64
    → (visit rows (record { range = suc n; range_sum = k })).range_sum
      ≡ (k + sum_of (suc n) rows) % 2 ^ 64
unfolding visit
visit-sum [] n k h low = omega (arith, low)
visit-sum (v ∷ rows) zero k h low = omega arith
visit-sum (v ∷ rows) (suc n) k h low =
    let left : (suc (suc n) + 2 ^ 64 - 1) % 2 ^ 64 ≡ suc n = omega (arith, h) in
    let more : ltb 0 (suc n) ≡ true = ground arith in
    rw (left, more)
      (visit-sum rows n ((k + v) % 2 ^ 64) (omega (arith, h)) (omega arith) ∙ omega arith)

-- `sum_in_range` adds up the first values that the scan passes.
sum_in_range-scan :
    {S : Type 0} (t : Table S) (cur_key range : ℕ) (s : S)
    → range < 2 ^ 64
    → sum_in_range t cur_key range s ≡ sum_of range (t.scan (key_str cur_key) s) % 2 ^ 64
unfolding sum_in_range
sum_in_range-scan t cur_key zero s h = refl
sum_in_range-scan t cur_key (suc n) s h =
    let off : (suc n == 0) ≡ false = ground arith in
    rw off (visit-sum (t.scan (key_str cur_key) s) n 0 h (omega arith) ∙ omega arith)

-- Sums of the numbers of `main` stay far below 2 ^ 64.
sum_of-numbers : (range a m : ℕ) → a + m ≤ 2 ^ 20 → sum_of range (numbers a m) ≤ m * 2 ^ 20
sum_of-numbers zero a m h = omega arith
sum_of-numbers (suc range) a zero h = omega arith
sum_of-numbers (suc range) a (suc m) h =
    omega (arith, h, sum_of-numbers range (suc a) m (omega (arith, h)))

module _ {S : Type 0} (t : Table S) (law : IsTable t) (scan : IsScan t) where
  -- Over a table that is a map with scans in the order of its keys, after the insertions of `main`:
  -- for any first key and range of 64 bits, `sum_in_range` is the sum of as many numbers, from the
  -- first key on, as the range says, or of all that `main` has inserted from there on if they are
  -- fewer. No addition wraps.
  pub sum_in_range-insert_keys :
      (start range : ℕ)
      → start < 2 ^ 64
      → range < 2 ^ 64
      → sum_in_range t start range (insert_keys t num_keys)
        ≡ sum_of range (numbers start (num_keys - start))
  sum_in_range-insert_keys start range low h =
      sum_in_range-scan t start range (insert_keys t num_keys) h
      ∙ ap (λ l. sum_of range l % 2 ^ 64)
          (scan-insert_keys t law scan num_keys start (omega arith) low)
      ∙ small
    where
      small :
          sum_of range (numbers start (num_keys - start)) % 2 ^ 64
          ≡ sum_of range (numbers start (num_keys - start))
      small = elim (dec_lt start num_keys) [
        | yes inside ↦
            let bound = sum_of-numbers range start (num_keys - start) (omega (arith, inside)) in
            omega (arith, bound)
        | no outside ↦
            let none_left : num_keys - start ≡ 0 = omega (arith, outside) in
            rw none_left (empty range)
      ]
        where
          empty :
              (range : ℕ) → sum_of range (numbers start 0) % 2 ^ 64 ≡ sum_of range (numbers start 0)
          empty zero = refl
          empty (suc n) = refl
