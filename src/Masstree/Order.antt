-- ===== src/Masstree/Order.antt =====
-- The keys of masstree-example/index as strings of bytes.
use systemish.Base.{
  ℕ, ◌+◌, ◌*◌, ◌/◌, ◌%◌, ◌^◌, ◌<◌, ◌≡◌, refl, ap, sym, ◌∙◌, ltb, ◌==◌, ==_iff, if◌then◌else◌, Bool,
  true, false, Bool-cases, inl, inr, List, [], ◌∷◌, All, length, arith,
}
use systemish.Masstree.{bytes, swap_endian, key_str}

-- The order of strings, by their first different byte.
abbrev pub before : List ℕ → List ℕ → Bool
before [] [] = false
before [] (y ∷ ys) = true
before (x ∷ xs) [] = false
before (x ∷ xs) (y ∷ ys) =
    let rest = before xs ys in if ltb x y then true else if x == y then rest else false

-- the number whose bytes, the highest first, stand behind those of `n`
abbrev value : ℕ → List ℕ → ℕ
value n [] = n
value n (x ∷ xs) = value (n * 256 + x) xs

abbrev AreBytes : List ℕ → Type 0
AreBytes xs = All (λ x. x < 256) xs

value-lt :
    (n m : ℕ) (xs ys : List ℕ)
    → length xs ≡ length ys
    → AreBytes xs
    → n < m
    → value n xs < value m ys
value-lt n m [] [] e p h = h
value-lt n m [] (y ∷ ys) e p h = absurd (omega (arith, e))
value-lt n m (x ∷ xs) [] e p h = absurd (omega (arith, e))
value-lt n m (x ∷ xs) (y ∷ ys) e (b, p) h =
    value-lt (n * 256 + x) (m * 256 + y) xs ys (omega (arith, e)) p (omega (arith, b, h))

before-value :
    (n : ℕ) (xs ys : List ℕ)
    → length xs ≡ length ys
    → AreBytes xs
    → AreBytes ys
    → before xs ys ≡ ltb (value n xs) (value n ys)
before-value n [] [] e p q = ground arith
before-value n [] (y ∷ ys) e p q = absurd (omega (arith, e))
before-value n (x ∷ xs) [] e p q = absurd (omega (arith, e))
before-value n (x ∷ xs) (y ∷ ys) e (b, p) (c, q) = elim (Bool-cases (ltb x y)) [
  | inl less ↦
      let low =
        value-lt (n * 256 + x) (n * 256 + y) xs ys (omega (arith, e)) p (ground (arith, less)) in
      rw less (ground (arith, low))
  | inr more ↦ elim (Bool-cases (x == y)) [
    | inl same ↦
        rw (more, same)
          (before-value (n * 256 + x) xs ys (omega (arith, e)) p q
            ∙ ap (λ z. ltb (value (n * 256 + x) xs) (value (n * 256 + z) ys)) ((==_iff x y).0 same))
    | inr other ↦
        let low =
          value-lt (n * 256 + y) (n * 256 + x) ys xs (omega (arith, e)) q
            (ground (arith, more, other)) in
        rw (more, other) (ground (arith, low))
  ]
]

bytes-AreBytes : (x : ℕ) → AreBytes (bytes x)
unfolding bytes
bytes-AreBytes x = (
  omega arith,
  (
    omega arith,
    (omega arith, (omega arith, (omega arith, (omega arith, (omega arith, (omega arith, tt)))))),
  ),
)

length-bytes : (x : ℕ) → length (bytes x) ≡ 8
unfolding bytes
length-bytes x = refl

-- The bytes of a number in the opposite order, the highest first.
abbrev big : ℕ → List ℕ
big x =
    x / 256 ^ 7 % 256
    ∷ x / 256 ^ 6 % 256
    ∷ x / 256 ^ 5 % 256
    ∷ x / 256 ^ 4 % 256
    ∷ x / 256 ^ 3 % 256
    ∷ x / 256 ^ 2 % 256
    ∷ x / 256 % 256
    ∷ x % 256
    ∷ []

value-big : (x : ℕ) → x < 2 ^ 64 → value 0 (big x) ≡ x
value-big x h = omega (arith, h)

-- The bytes of a number that is given by its bytes.
abbrev packed : ℕ → ℕ → ℕ → ℕ → ℕ → ℕ → ℕ → ℕ → ℕ
packed a b c d e f g h =
    a * 256 ^ 7 + b * 256 ^ 6 + c * 256 ^ 5 + d * 256 ^ 4 + e * 256 ^ 3 + f * 256 ^ 2 + g * 256 + h

bytes-packed :
    (a b c d e f g h : ℕ)
    → AreBytes (a ∷ b ∷ c ∷ d ∷ e ∷ f ∷ g ∷ h ∷ [])
    → bytes (packed a b c d e f g h) ≡ h ∷ g ∷ f ∷ e ∷ d ∷ c ∷ b ∷ a ∷ []
unfolding bytes
bytes-packed a b c d e f g h (pa, (pb, (pc, (pd, (pe, (pf, (pg, (ph, z)))))))) =
    λ i. first i ∷ second i ∷ third i ∷ fourth i ∷ fifth i ∷ sixth i ∷ seventh i ∷ eighth i ∷ []
  where
    first : packed a b c d e f g h % 256 ≡ h
    first = omega (arith, ph)

    second : packed a b c d e f g h / 256 % 256 ≡ g
    second = omega (arith, ph, pg)

    third : packed a b c d e f g h / 256 ^ 2 % 256 ≡ f
    third = omega (arith, ph, pg, pf)

    fourth : packed a b c d e f g h / 256 ^ 3 % 256 ≡ e
    fourth = omega (arith, ph, pg, pf, pe)

    fifth : packed a b c d e f g h / 256 ^ 4 % 256 ≡ d
    fifth = omega (arith, ph, pg, pf, pe, pd)

    sixth : packed a b c d e f g h / 256 ^ 5 % 256 ≡ c
    sixth = omega (arith, ph, pg, pf, pe, pd, pc)

    seventh : packed a b c d e f g h / 256 ^ 6 % 256 ≡ b
    seventh = omega (arith, ph, pg, pf, pe, pd, pc, pb)

    eighth : packed a b c d e f g h / 256 ^ 7 % 256 ≡ a
    eighth = omega (arith, ph, pg, pf, pe, pd, pc, pb, pa)

key_str-big : (x : ℕ) → key_str x ≡ big x
unfolding key_str swap_endian
key_str-big x =
    bytes-packed (x % 256) (x / 256 % 256) (x / 256 ^ 2 % 256) (x / 256 ^ 3 % 256)
      (x / 256 ^ 4 % 256) (x / 256 ^ 5 % 256) (x / 256 ^ 6 % 256) (x / 256 ^ 7 % 256)
      (bytes-AreBytes' x)
  where
    bytes-AreBytes' :
        (x : ℕ)
        → AreBytes (
            x % 256
            ∷ x / 256 % 256
            ∷ x / 256 ^ 2 % 256
            ∷ x / 256 ^ 3 % 256
            ∷ x / 256 ^ 4 % 256
            ∷ x / 256 ^ 5 % 256
            ∷ x / 256 ^ 6 % 256
            ∷ x / 256 ^ 7 % 256
            ∷ [])
    bytes-AreBytes' x = (
      omega arith,
      (
        omega arith,
        (
          omega arith,
          (omega arith, (omega arith, (omega arith, (omega arith, (omega arith, tt))))),
        ),
      ),
    )

value-key_str : (x : ℕ) → x < 2 ^ 64 → value 0 (key_str x) ≡ x
value-key_str x h = ap (value 0) (key_str-big x) ∙ value-big x h

-- For all keys of 64 bits, the order of their strings, which is the order of the table, is the
-- order of the numbers.
pub key_str-order : (a b : ℕ) → a < 2 ^ 64 → b < 2 ^ 64 → before (key_str a) (key_str b) ≡ ltb a b
unfolding key_str
key_str-order a b ha hb =
    before-value 0 (key_str a) (key_str b)
      (length-bytes (swap_endian a) ∙ sym (length-bytes (swap_endian b)))
      (bytes-AreBytes (swap_endian a)) (bytes-AreBytes (swap_endian b))
    ∙ (λ i. ltb (value-key_str a ha i) (value-key_str b hb i))

-- Two keys have two strings.
pub key_str-injective : (a b : ℕ) → a < 2 ^ 64 → b < 2 ^ 64 → key_str a ≡ key_str b → a ≡ b
key_str-injective a b ha hb e = sym (value-key_str a ha) ∙ ap (value 0) e ∙ value-key_str b hb
