-- ===== src/Masstree/Strings.antt =====
-- The order of strings of bytes, by their first different byte, is a total order.
use systemish.Base.{
  ℕ, ◌≡◌, refl, ◌==◌, ==_iff, true, false, Bool-cases, inl, inr, List, [], ◌∷◌, arith,
}
use systemish.Masstree.Order.{before}

pub before_irrefl : (xs : List ℕ) → before xs xs ≡ false
before_irrefl [] = refl
before_irrefl (x ∷ xs) = ground (arith, before_irrefl xs)

pub before_total : (xs ys : List ℕ) → before xs ys ≡ false → before ys xs ≡ false → xs ≡ ys
before_total [] [] p q = refl
before_total [] (y ∷ ys) p q = cc
before_total (x ∷ xs) [] p q = cc
before_total (x ∷ xs) (y ∷ ys) p q = elim (Bool-cases (x == y)) [
  | inl same ↦
      let e = (==_iff x y).0 same in
      let rest = before_total xs ys (ground (arith, p, same)) (ground (arith, q, same, e)) in
      λ i. e i ∷ rest i
  | inr other ↦ absurd (ground (arith, p, q, other))
]

pub before_trans :
    (xs ys zs : List ℕ) → before xs ys ≡ true → before ys zs ≡ true → before xs zs ≡ true
before_trans [] [] zs p q = cc
before_trans [] (y ∷ ys) [] p q = cc
before_trans [] (y ∷ ys) (z ∷ zs) p q = refl
before_trans (x ∷ xs) [] zs p q = cc
before_trans (x ∷ xs) (y ∷ ys) [] p q = cc
before_trans (x ∷ xs) (y ∷ ys) (z ∷ zs) p q = ground (arith, before_trans xs ys zs)
