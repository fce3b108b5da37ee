-- ===== src/Masstree/Scan.antt =====
-- The scans of masstree-example/index, after the insertions of `main`.
use systemish.Base.{
  ℕ, zero, suc, ◌-◌, ◌^◌, ◌<◌, ◌≤◌, ◌≡◌, ◌≢◌, refl, ap, sym, ◌∙◌, ltb, true, false, Bool-cases, inl,
  inr, ◌⊎◌, List, [], ◌∷◌, map, All, some, none, for_below, arith,
}
use mathlib.Core.Path.{subst}
use systemish.Masstree.{get, Table, IsTable, key_str, put, insert_keys}
use systemish.Masstree.Order.{before, key_str-order}
use systemish.Masstree.Gets.{get-insert_keys}
use systemish.Masstree.Strings.{before_irrefl, before_total}

abbrev pub Row : Type 0
Row = List ℕ × ℕ

-- A row of a list.
abbrev pub IsIn : Row → List Row → Type 0
IsIn x [] = ⊥
IsIn x (y ∷ ys) = (x ≡ y) ⊎ IsIn x ys

-- Each key stands before those that follow it.
abbrev pub Ascending : List Row → Type 0
Ascending [] = Unit
Ascending (r ∷ rs) = All (λ (r' : Row). before r.0 r'.0 ≡ true) rs × Ascending rs

-- What a scan promises: it passes the values of the rows from a key on, in ascending order of their
-- keys, each row that the table finds and no others.
pub record IsScan {S : Type 0} (t : Table S) : Type 0 where
  pub rows : List ℕ → S → List Row
  pub passed : (k : List ℕ) (s : S) → t.scan k s ≡ map (λ (r : Row). r.1) (rows k s)
  pub ascending : (k : List ℕ) (s : S) → Ascending (rows k s)
  pub found :
      (k : List ℕ) (s : S)
      → All (λ (r : Row). (before r.0 k ≡ false) × (t.find r.0 s ≡ some r.1)) (rows k s)
  pub complete :
      (k a : List ℕ) (v : ℕ) (s : S)
      → before a k ≡ false
      → t.find a s ≡ some v
      → IsIn (a, v) (rows k s)

-- The numbers from `a` on.
abbrev pub numbers : ℕ → ℕ → List ℕ
numbers a zero = []
numbers a (suc m) = a ∷ numbers (suc a) m

-- A row of `main` with a number from `a` on, below `n`.
abbrev IsRow : ℕ → ℕ → Row → Type 0
IsRow a n r = (r.0 ≡ key_str r.1) × (a ≤ r.1) × (r.1 < n)

-- The rows above a row have greater numbers.
above :
    (n : ℕ) (r : Row) (rs : List Row) (a : ℕ)
    → n ≤ 2 ^ 64
    → IsRow a n r
    → All (λ (r' : Row). before r.0 r'.0 ≡ true) rs
    → All (IsRow a n) rs
    → All (IsRow (suc r.1) n) rs
above n r [] a low is asc all = tt
above n r (q ∷ rs) a low is (b, asc) (here, all) =
    ((here.0, less, here.2), above n r rs a low is asc all)
  where
    less : suc r.1 ≤ q.1
    less =
        let e : ltb r.1 q.1 ≡ true =
          sym (key_str-order r.1 q.1 (omega (arith, low, is.2)) (omega (arith, low, here.2)))
          ∙ (λ i. before (sym is.0 i) (sym here.0 i))
          ∙ b in
        ground (arith, e)

-- No row above has a smaller number.
IsIn-above :
    (rs : List Row) (a n j : ℕ) → All (IsRow (suc a) n) rs → j ≤ a → IsIn (key_str j, j) rs → ⊥
IsIn-above [] a n j all low h = h
IsIn-above (r ∷ rs) a n j (is, all) low (inl e) = omega (arith, low, is.1, ap (λ (q : Row). q.1) e)
IsIn-above (r ∷ rs) a n j (is, all) low (inr h) = IsIn-above rs a n j all low h

-- Rows of `main` in ascending order, with every number from `a` on.
rows-numbers :
    (n a m : ℕ) (rs : List Row)
    → n ≤ 2 ^ 64
    → m ≡ n - a
    → Ascending rs
    → All (IsRow a n) rs
    → ((j : ℕ) → a ≤ j → j < n → IsIn (key_str j, j) rs)
    → map (λ (r : Row). r.1) rs ≡ numbers a m
rows-numbers n a zero [] low e asc all every = refl
rows-numbers n a (suc m) [] low e asc all every = absurd (every a (omega arith) (omega (arith, e)))
rows-numbers n a zero (r ∷ rs) low e asc (is, all) every = absurd (omega (arith, e, is.1, is.2))
rows-numbers n a (suc m) (r ∷ rs) low e (asc, ascs) (is, all) every =
    let higher = above n r rs a low is asc all in
    let first = at higher (every a (omega arith) (omega (arith, e))) in
    let rest =
      rows-numbers n (suc a) m rs low (omega (arith, e)) ascs
        (subst (λ k. All (IsRow (suc k) n) rs) first higher)
        (λ j h h'. later first j h (every j (omega (arith, h)) h')) in
    λ i. first i ∷ rest i
  where
    at : All (IsRow (suc r.1) n) rs → IsIn (key_str a, a) (r ∷ rs) → r.1 ≡ a
    at higher (inl p) = sym (ap (λ (q : Row). q.1) p)
    at higher (inr h) = absurd (IsIn-above rs r.1 n a higher is.1 h)

    later : r.1 ≡ a → (j : ℕ) → suc a ≤ j → IsIn (key_str j, j) (r ∷ rs) → IsIn (key_str j, j) rs
    later first j h (inl p) = absurd (omega (arith, h, first, ap (λ (q : Row). q.1) p))
    later first j h (inr q) = q

module _ {S : Type 0} (t : Table S) (law : IsTable t) (scan : IsScan t) where
  -- What is found after the insertions of `main` is one of them.
  find-insert_keys :
      (n : ℕ) (k : List ℕ) (v : ℕ) → t.find k (insert_keys t n) ≡ some v → (v < n) × (k ≡ key_str v)
  unfolding insert_keys for_below put
  find-insert_keys zero k v e = absurd (clash (sym (law.find_initial k) ∙ e))
    where
      clash : none ≡ some v → ⊥
      clash h = cc
  find-insert_keys (suc n) k v e = elim (Bool-cases (before k (key_str n))) [
    | inl less ↦
        other (find-insert_keys n k v)
          (λ same. differ (sym (before_irrefl k) ∙ ap (before k) (sym same) ∙ less))
    | inr not_less ↦ elim (Bool-cases (before (key_str n) k)) [
      | inl more ↦
          other (find-insert_keys n k v)
            (λ same. differ (sym (before_irrefl k) ∙ ap (λ l. before l k) (sym same) ∙ more))
      | inr not_more ↦
          let at = before_total k (key_str n) not_less not_more in
          let found : some n ≡ some v =
            sym (law.find_same (key_str n) n (insert_keys t n))
            ∙ ap (λ l. t.find l (insert_keys t (suc n))) (sym at)
            ∙ e in
          let same : n ≡ v = some_injective found in (omega (arith, same), at ∙ ap key_str same)
    ]
  ]
    where
      differ : false ≡ true → ⊥
      differ h = cc

      some_injective : {a b : ℕ} → some a ≡ some b → a ≡ b
      some_injective h = cc

      other :
          (t.find k (insert_keys t n) ≡ some v → (v < n) × (k ≡ key_str v))
          → key_str n ≢ k
          → (v < suc n) × (k ≡ key_str v)
      other before_it ne =
          let (low, at) =
            before_it (sym (law.find_other (key_str n) k n (insert_keys t n) ne) ∙ e) in
          (omega (arith, low), at)

  -- The scan after the insertions of `main` passes the numbers from the first key on.
  pub scan-insert_keys :
      (n start : ℕ)
      → n ≤ 2 ^ 64
      → start < 2 ^ 64
      → t.scan (key_str start) (insert_keys t n) ≡ numbers start (n - start)
  unfolding get
  scan-insert_keys n start h low =
      scan.passed (key_str start) (insert_keys t n)
      ∙ rows-numbers n start (n - start) (scan.rows (key_str start) (insert_keys t n)) h refl
          (scan.ascending (key_str start) (insert_keys t n))
          (found (scan.rows (key_str start) (insert_keys t n))
            (scan.found (key_str start) (insert_keys t n)))
          (λ j above below.
            scan.complete (key_str start) (key_str j) j (insert_keys t n)
              (key_str-order j start (omega (arith, h, below)) low ∙ ground (arith, above))
              (get-insert_keys t law n j h below))
    where
      found :
          (rs : List Row)
          → All
              (λ (r : Row).
                (before r.0 (key_str start) ≡ false) × (t.find r.0 (insert_keys t n) ≡ some r.1))
              rs
          → All (IsRow start n) rs
      found [] all = tt
      found (r ∷ rs) ((from_start, e), all) =
          let (less, at) = find-insert_keys n r.0 r.1 e in
          let not_before : ltb r.1 start ≡ false =
            sym (key_str-order r.1 start (omega (arith, h, less)) low)
            ∙ ap (λ k. before k (key_str start)) (sym at)
            ∙ from_start in
          ((at, ground (arith, not_before), less), found rs all)
