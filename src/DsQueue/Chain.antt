-- ===== src/DsQueue/Chain.antt =====
-- What a queue stands for: the addresses and values of its nodes, in order.
use systemish.Base.{
  ℕ, suc, ◌+◌, ◌≡◌, ◌≢◌, refl, ap, ◌∙◌, Bool, true, false, ◌||◌, ◌==◌, Option, none, some, List, [],
  ◌∷◌, ◌++◌, arith, Bool-cases, ==_iff, inl, inr,
}
use mathlib.Core.Bool.{or_assoc}
use systemish.DsQueue.Commands.{Address, null, qnode, Qnode, Memory, set_at}

abbrev pub Cells : Type 0
Cells = List (Address × ℕ)

abbrev pub length : Cells → ℕ
length [] = 0
length (_ ∷ xs) = suc (length xs)

abbrev pub among : Address → Cells → Bool
among a [] = false
among a ((p, _) ∷ xs) = (a == p) || among a xs

-- the addresses of the first and the last node
abbrev pub first : Cells → Address
first [] = null
first ((p, _) ∷ xs) = p

abbrev pub end_of : Address → Cells → Address
end_of p [] = p
end_of p ((q, _) ∷ xs) = end_of q xs

abbrev pub last : Cells → Address
last xs = end_of null xs

abbrev pub values : Cells → List ℕ
values [] = []
values ((_, v) ∷ xs) = v ∷ values xs

-- The nodes lie in the heap at distinct addresses, each linked to the next, the last to null.
abbrev pub Owns : Memory → Cells → Type 0
Owns h [] = Unit {0}
Owns h ((a, v) ∷ xs) =
    (a ≢ null) × (h a ≡ some (qnode v (first xs))) × (among a xs ≡ false) × Owns h xs

pub Owns-kept :
    (h g : Memory) (xs : Cells)
    → Owns h xs
    → ((a : Address) → among a xs ≡ true → g a ≡ h a)
    → Owns g xs
Owns-kept h g [] o same = tt
Owns-kept h g ((a, v) ∷ xs) (ne, at, out, o) same =
    (ne, same a (ground arith) ∙ at, out, Owns-kept h g xs o (λ b i. same b (ground (arith, i))))

-- A write outside.
pub Owns-kept-set_at :
    (h : Memory) (xs : Cells) (a : Address) (c : Option Qnode)
    → Owns h xs
    → among a xs ≡ false
    → Owns (set_at h a c) xs
Owns-kept-set_at h xs a c o out = Owns-kept h (set_at h a c) xs o apart
  where
    apart : (b : Address) → among b xs ≡ true → set_at h a c b ≡ h b
    apart b i = elim (Bool-cases (b == a)) [
      | inl at ↦ cc (i, out, ap (λ t. among t xs) ((==_iff b a).0 at))
      | inr off ↦ rw off
    ]

pub not_has_unused :
    (h : Memory) (xs : Cells) (a : Address) → Owns h xs → h a ≡ none → among a xs ≡ false
not_has_unused h [] a o unused = refl
not_has_unused h ((p, v) ∷ xs) a (ne, at, out, o) unused =
    ground (arith, not_has_unused h xs a o unused, at, unused)

pub among-end_of : (p : Address) (v : ℕ) (xs : Cells) → among (end_of p xs) ((p, v) ∷ xs) ≡ true
among-end_of p v [] = ground arith
among-end_of p v ((q, w) ∷ xs) = ground (arith, among-end_of q w xs)

-- The node that the tail pointer points at.
pub last-holds :
    (h : Memory) (p : Address) (v : ℕ) (xs : Cells)
    → Owns h ((p, v) ∷ xs)
    → (end_of p xs ≢ null) × (w : ℕ) × (h (end_of p xs) ≡ some (qnode w null))
last-holds h p v [] (ne, at, out, o) = (ne, v, at)
last-holds h p v ((q, w) ∷ xs) (ne, at, out, o) = last-holds h q w xs o

among-append : (a : Address) (xs ys : Cells) → among a (xs ++ ys) ≡ (among a xs || among a ys)
among-append a [] ys = refl
among-append a (x ∷ xs) ys = rw (among-append a xs ys, or_assoc)

-- Linking a fresh node behind the last.
pub Owns-append :
    (h : Memory) (p : Address) (v : ℕ) (xs : Cells) (w : ℕ) (new : Address) (x : ℕ)
    → Owns h ((p, v) ∷ xs)
    → h (end_of p xs) ≡ some (qnode w null)
    → new ≢ null
    → h new ≡ some (qnode x null)
    → among new ((p, v) ∷ xs) ≡ false
    → Owns (set_at h (end_of p xs) (some (qnode w new))) ((p, v) ∷ (xs ++ (new, x) ∷ []))
Owns-append h p v [] w new x (ne, at, out, o) last_at ne' new_at fresh =
    (ne, ground arith, ground arith, (ne', ground arith, refl, tt))
Owns-append h p v ((q, u) ∷ xs) w new x (ne, at, out, o) last_at ne' new_at fresh =
    (ne, kept, apart, Owns-append h q u xs w new x o last_at ne' new_at (ground (arith, fresh)))
  where
    kept : set_at h (end_of q xs) (some (qnode w new)) p ≡ some (qnode v q)
    kept = elim (Bool-cases (p == end_of q xs)) [
      | inl same ↦ cc (
        out,
        among-end_of q u xs,
        ap (λ t. among t ((q, u) ∷ xs)) ((==_iff p (end_of q xs)).0 same),
      )
      | inr off ↦ rw off at
    ]

    apart : among p ((q, u) ∷ (xs ++ (new, x) ∷ [])) ≡ false
    apart = ground (arith, among-append p xs ((new, x) ∷ []), out, fresh)

pub length-append : (xs ys : Cells) → length (xs ++ ys) ≡ length xs + length ys
length-append [] ys = omega arith
length-append (x ∷ xs) ys = omega (arith, length-append xs ys)

pub values-append : (xs ys : Cells) → values (xs ++ ys) ≡ values xs ++ values ys
values-append [] ys = refl
values-append ((p, v) ∷ xs) ys = ap (λ l. v ∷ l) (values-append xs ys)

pub end_of-append :
    (p : Address) (xs : Cells) (q : Address) (v : ℕ) → end_of p (xs ++ (q, v) ∷ []) ≡ q
end_of-append p [] q v = refl
end_of-append p ((r, w) ∷ xs) q v = end_of-append r xs q v
