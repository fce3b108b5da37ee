-- ===== src/Examples/Rows.antt =====
-- A table for masstree-example/index: rows in the order of their keys.
use systemish.Base.{
  ℕ, ◌≡◌, ◌≢◌, refl, ap, sym, ◌∙◌, true, false, Bool-cases, inl, inr, List, [], ◌∷◌, map, All,
  Option, some, none, if◌then◌else◌,
}
use mathlib.Core.Path.{subst}
use systemish.Masstree.{Table, IsTable}
use systemish.Masstree.Order.{before}
use systemish.Masstree.Strings.{before_irrefl, before_total, before_trans}
use systemish.Masstree.Scan.{Row, IsIn, Ascending, IsScan}

-- The key stands before all rows.
abbrev IsBelow : List ℕ → List Row → Type 0
IsBelow k rs = All (λ (r : Row). before k r.0 ≡ true) rs

pub insert_row : List ℕ → ℕ → List Row → List Row
insert_row k v [] = (k, v) ∷ []
insert_row k v (r ∷ rs) =
    let rest = insert_row k v rs in
    if before k r.0 then (k, v) ∷ r ∷ rs else if before r.0 k then r ∷ rest else (k, v) ∷ rs

pub find_row : List ℕ → List Row → Option ℕ
find_row k [] = none
find_row k (r ∷ rs) =
    let rest = find_row k rs in
    if before k r.0 then rest else if before r.0 k then rest else some r.1

-- The rows that do not stand before the key.
pub rows_from : List ℕ → List Row → List Row
rows_from k [] = []
rows_from k (r ∷ rs) = let rest = rows_from k rs in if before r.0 k then rest else r ∷ rest

IsBelow-trans : (k l : List ℕ) (rs : List Row) → before k l ≡ true → IsBelow l rs → IsBelow k rs
IsBelow-trans k l [] h all = tt
IsBelow-trans k l (r ∷ rs) h (b, all) = (before_trans k l r.0 h b, IsBelow-trans k l rs h all)

insert_row-IsBelow :
    (l k : List ℕ) (v : ℕ) (rs : List Row)
    → before l k ≡ true
    → IsBelow l rs
    → IsBelow l (insert_row k v rs)
unfolding insert_row
insert_row-IsBelow l k v [] h all = (h, tt)
insert_row-IsBelow l k v (r ∷ rs) h (b, all) = elim (Bool-cases (before k r.0)) [
  | inl less ↦ rw less (h, (b, all))
  | inr not_less ↦ elim (Bool-cases (before r.0 k)) [
    | inl more ↦ rw (not_less, more) (b, insert_row-IsBelow l k v rs h all)
    | inr same ↦ rw (not_less, same) (h, all)
  ]
]

pub insert_row-Ascending :
    (k : List ℕ) (v : ℕ) (rs : List Row) → Ascending rs → Ascending (insert_row k v rs)
unfolding insert_row
insert_row-Ascending k v [] asc = (tt, tt)
insert_row-Ascending k v (r ∷ rs) (below, asc) = elim (Bool-cases (before k r.0)) [
  | inl less ↦ rw less ((less, IsBelow-trans k r.0 rs less below), (below, asc))
  | inr not_less ↦ elim (Bool-cases (before r.0 k)) [
    | inl more ↦
        rw (not_less, more)
          (insert_row-IsBelow r.0 k v rs more below, insert_row-Ascending k v rs asc)
    | inr not_more ↦
        let same : r.0 ≡ k = before_total r.0 k not_more not_less in
        rw (not_less, not_more) (subst (λ l. IsBelow l rs) same below, asc)
  ]
]

-- A row of another key changes nothing.
find_row-other :
    (k k' : List ℕ) (v : ℕ) (rs : List Row) → k ≢ k' → find_row k' ((k, v) ∷ rs) ≡ find_row k' rs
unfolding find_row
find_row-other k k' v rs ne = elim (Bool-cases (before k' k)) [
  | inl less ↦ rw less refl
  | inr not_less ↦ elim (Bool-cases (before k k')) [
    | inl more ↦ rw (not_less, more) refl
    | inr not_more ↦ absurd (ne (before_total k k' not_more not_less))
  ]
]

find_row-insert_row_same :
    (k : List ℕ) (v : ℕ) (rs : List Row) → find_row k (insert_row k v rs) ≡ some v
unfolding find_row insert_row
find_row-insert_row_same k v [] = rw (before_irrefl k) refl
find_row-insert_row_same k v (r ∷ rs) = elim (Bool-cases (before k r.0)) [
  | inl less ↦ rw (less, before_irrefl k) refl
  | inr not_less ↦ elim (Bool-cases (before r.0 k)) [
    | inl more ↦ rw (not_less, more) (rw (not_less, more) (find_row-insert_row_same k v rs))
    | inr not_more ↦ rw (not_less, not_more) (rw (before_irrefl k) refl)
  ]
]

find_row-insert_row_other :
    (k k' : List ℕ) (v : ℕ) (rs : List Row)
    → k ≢ k'
    → find_row k' (insert_row k v rs) ≡ find_row k' rs
unfolding insert_row find_row
find_row-insert_row_other k k' v [] ne = find_row-other k k' v [] ne
find_row-insert_row_other k k' v (r ∷ rs) ne = elim (Bool-cases (before k r.0)) [
  | inl less ↦ rw less (find_row-other k k' v (r ∷ rs) ne)
  | inr not_less ↦ elim (Bool-cases (before r.0 k)) [
    | inl more ↦
        let rest = find_row-insert_row_other k k' v rs ne in
        rw (not_less, more)
          (ap (λ (o : Option ℕ). if before k' r.0 then o else if before r.0 k' then o else some r.1)
            rest)
    | inr not_more ↦
        let same : r.0 ≡ k = before_total r.0 k not_more not_less in
        rw (not_less, not_more)
          (find_row-other k k' v rs ne
            ∙ sym (find_row-other r.0 k' r.1 rs (λ e. ne (sym same ∙ e))))
  ]
]

-- A row further on is found as well.
find_row-later :
    (r q : Row) (rs : List Row)
    → before q.0 r.0 ≡ true
    → find_row r.0 rs ≡ some r.1
    → find_row r.0 (q ∷ rs) ≡ some r.1
unfolding find_row
find_row-later r q rs above e = elim (Bool-cases (before r.0 q.0)) [
  | inl less ↦ rw less e
  | inr not_less ↦ rw (not_less, above) e
]

IsFound : List ℕ → List Row → Row → Type 0
IsFound k rs r = (before r.0 k ≡ false) × (find_row r.0 rs ≡ some r.1)

later-IsFound :
    (k : List ℕ) (q : Row) (rs some_rows : List Row)
    → IsBelow q.0 some_rows
    → All (IsFound k rs) some_rows
    → All (IsFound k (q ∷ rs)) some_rows
unfolding IsFound
later-IsFound k q rs [] below all = tt
later-IsFound k q rs (r ∷ more) (b, below) ((from_k, e), all) =
    ((from_k, find_row-later r q rs b e), later-IsFound k q rs more below all)

rows_from-IsBelow : (l k : List ℕ) (rs : List Row) → IsBelow l rs → IsBelow l (rows_from k rs)
unfolding rows_from
rows_from-IsBelow l k [] below = tt
rows_from-IsBelow l k (r ∷ rs) (b, below) = elim (Bool-cases (before r.0 k)) [
  | inl less ↦ rw less (rows_from-IsBelow l k rs below)
  | inr kept ↦ rw kept (b, rows_from-IsBelow l k rs below)
]

rows_from-Ascending : (k : List ℕ) (rs : List Row) → Ascending rs → Ascending (rows_from k rs)
unfolding rows_from
rows_from-Ascending k [] asc = tt
rows_from-Ascending k (r ∷ rs) (below, asc) = elim (Bool-cases (before r.0 k)) [
  | inl less ↦ rw less (rows_from-Ascending k rs asc)
  | inr kept ↦ rw kept (rows_from-IsBelow r.0 k rs below, rows_from-Ascending k rs asc)
]

rows_from-IsFound :
    (k : List ℕ) (rs : List Row) → Ascending rs → All (IsFound k rs) (rows_from k rs)
unfolding rows_from
rows_from-IsFound k [] asc = tt
rows_from-IsFound k (r ∷ rs) (below, asc) =
    let rest =
      later-IsFound k r rs (rows_from k rs) (rows_from-IsBelow r.0 k rs below)
        (rows_from-IsFound k rs asc) in
    elim (Bool-cases (before r.0 k)) [
      | inl less ↦ rw less rest
      | inr kept ↦ rw kept ((unfold IsFound find_row in (kept, rw (before_irrefl r.0) refl)), rest)
    ]

rows_from-IsIn :
    (k a : List ℕ) (v : ℕ) (rs : List Row)
    → before a k ≡ false
    → find_row a rs ≡ some v
    → IsIn (a, v) (rows_from k rs)
unfolding rows_from find_row
rows_from-IsIn k a v [] from_k e = clash e
  where
    clash : none ≡ some v → ⊥
    clash h = cc
rows_from-IsIn k a v (r ∷ rs) from_k e = elim (Bool-cases (before a r.0)) [
  | inl less ↦ further (rows_from-IsIn k a v rs from_k (rw less at e))
  | inr not_less ↦ elim (Bool-cases (before r.0 a)) [
    | inl more ↦ further (rows_from-IsIn k a v rs from_k (rw (not_less, more) at e))
    | inr not_more ↦ here (before_total a r.0 not_less not_more) (rw (not_less, not_more) at e)
  ]
]
  where
    further : IsIn (a, v) (rows_from k rs) → IsIn (a, v) (rows_from k (r ∷ rs))
    further h = elim (Bool-cases (before r.0 k)) [
      | inl less ↦ rw less h
      | inr kept ↦ rw kept (inr h)
    ]

    here : a ≡ r.0 → some r.1 ≡ some v → IsIn (a, v) (rows_from k (r ∷ rs))
    here same found =
        let kept : before r.0 k ≡ false = ap (λ l. before l k) (sym same) ∙ from_k in
        rw kept (inl (λ i. (same i, values found i)))
      where
        values : some r.1 ≡ some v → v ≡ r.1
        values h = cc

-- The states of the table.
abbrev pub Sorted : Type 0
Sorted = (rs : List Row) × Ascending rs

abbrev pub map_table : Table Sorted
map_table = record {
  initial = ([], tt);
  insert = λ k v s. (insert_row k v s.0, insert_row-Ascending k v s.0 s.1);
  find = λ k s. find_row k s.0;
  scan = λ k s. map (λ (r : Row). r.1) (rows_from k s.0);
}

pub map_table-IsTable : IsTable map_table
unfolding find_row
map_table-IsTable = record {
  find_initial = λ k. refl;
  find_same = λ k v s. find_row-insert_row_same k v s.0;
  find_other = λ k k' v s ne. find_row-insert_row_other k k' v s.0 ne;
}

pub map_table-IsScan : IsScan map_table
unfolding IsFound
map_table-IsScan = record {
  rows = λ k s. rows_from k s.0;
  passed = λ k s. refl;
  ascending = λ k s. rows_from-Ascending k s.0 s.1;
  found = λ k s. rows_from-IsFound k s.0 s.1;
  complete = λ k a v s h e. rows_from-IsIn k a v s.0 h e;
}
