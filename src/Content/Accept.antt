-- ===== src/Content/Accept.antt =====
-- Which strings hyperscan/vs_dfc/snort_patterns/content_to_bytes.cc accepts.
use systemish.Base.{
  ℕ, ◌+◌, ◌-◌, ◌*◌, ◌<◌, ◌≡◌, refl, ap, sym, ◌∙◌, leb, ◌==◌, ==_iff, Bool-cases, inl, inr, ◌⊎◌, ◌↔◌,
  true, false, List, [], ◌∷◌, ◌++◌, Option, some, none, ◌>>=◌, arith,
}
use mathlib.Core.Path.{subst}
use systemish.Content.{
  Mode, char, hex, invert, is_hex, is_hex_char, is_hex_number, hex_to_int, pair, loop, printed,
  size_of, bar, space,
}
use systemish.Content.Grammar.{
  Item, letter, octet, digit, Denotes, end, plain, enter, leave, gap, two, text, pair-digits,
  loop-plain, loop-bar, loop-gap, loop-pair, loop-odd, loop-text,
}

-- A character that `hex_to_int` takes is a digit.
digit_of : (c : ℕ) → is_hex c ≡ true → (d : ℕ) × (d < 16) × (digit d ≡ c)
unfolding is_hex is_hex_char is_hex_number
digit_of c e = elim (Bool-cases (leb c 57)) [
  | inl low ↦ (c - 48, ground (arith, e, low), ground (arith, e, low))
  | inr high ↦ (c - 55, ground (arith, e, high), ground (arith, e, high))
]

hex_to_int-none : (c : ℕ) → is_hex c ≡ false → hex_to_int c ≡ none
unfolding hex_to_int
hex_to_int-none c e = rw (hex_to_int, e) refl

-- A pair of characters that is not one of digits.
pair-none : (c c2 : ℕ) → is_hex c ≡ false ⊎ is_hex c2 ≡ false → pair c c2 ≡ none
unfolding pair
pair-none c c2 (inr bad) = rw (hex_to_int-none c2 bad) refl
pair-none c c2 (inl bad) = rw (hex_to_int-none c bad) (low (hex_to_int c2))
  where
    low : (x : Option ℕ) → (x >>= λ low. none >>= λ (high : ℕ). some (low + 16 * high)) ≡ none
    low none = refl
    low (some x) = refl

none-some : (x : Option (List ℕ)) (out : List ℕ) → x ≡ none → x ≡ some out → ⊥
none-some x out a b = cc

-- A string that the loop accepts, from a mode on.
abbrev Accepted : Mode → List ℕ → Type 0
Accepted mode s = (is : List Item) × Denotes mode s is

loop-empty : (ret : List ℕ) → loop [] hex ret ≡ none
unfolding loop
loop-empty ret = refl

-- A list that starts with a given character.
starts :
    {A : Type 0} (P : List ℕ → A) (c k : ℕ) (s : List ℕ) → (c == k) ≡ true → P (c ∷ s) ≡ P (k ∷ s)
starts P c k s e = ap (λ x. P (x ∷ s)) ((==_iff c k).0 e)

module _ (c : ℕ) (s ret out : List ℕ) where
  -- The first character, for the strings that are accepted from the second on.
  char-Accepted :
      loop (c ∷ s) char ret ≡ some out
      → ((m : Mode) (r : List ℕ) → loop s m r ≡ some out → Accepted m s)
      → Accepted char (c ∷ s)
  unfolding invert
  char-Accepted h rest = elim (Bool-cases (c == bar)) [
    | inl at ↦
        let (is, d) =
          rest hex ret (sym (starts (λ l. loop l char ret) c bar s at ∙ loop-bar ret char s) ∙ h) in
        (is, subst (λ x. Denotes char (x ∷ s) is) (sym ((==_iff c bar).0 at)) (enter d))
    | inr off1 ↦
        let (is, d) = rest char (ret ++ printed (size_of c)) (sym (loop-plain ret c s off1) ∙ h) in
        (letter c ∷ is, plain (ground (arith, off1)) d)
  ]

  hex-Accepted :
      loop (c ∷ s) hex ret ≡ some out
      → ((m : Mode) (r : List ℕ) → loop s m r ≡ some out → Accepted m s)
      → ((c == bar) ≡ false → (c == space) ≡ false → Accepted hex (c ∷ s))
      → Accepted hex (c ∷ s)
  unfolding invert
  hex-Accepted h rest both = elim (Bool-cases (c == bar)) [
    | inl at ↦
        let (is, d) =
          rest char ret (sym (starts (λ l. loop l hex ret) c bar s at ∙ loop-bar ret hex s) ∙ h) in
        (is, subst (λ x. Denotes hex (x ∷ s) is) (sym ((==_iff c bar).0 at)) (leave d))
    | inr off1 ↦ elim (Bool-cases (c == space)) [
      | inl at ↦
          let (is, d) =
            rest hex ret (sym (starts (λ l. loop l hex ret) c space s at ∙ loop-gap ret s) ∙ h) in
          (is, subst (λ x. Denotes hex (x ∷ s) is) (sym ((==_iff c space).0 at)) (gap d))
      | inr off2 ↦ both off1 off2
    ]
  ]

pair-Accepted :
    (c c2 : ℕ) (s ret out : List ℕ)
    → (pair c c2 >>= λ number. loop s hex (ret ++ printed number)) ≡ some out
    → ((r : List ℕ) → loop s hex r ≡ some out → Accepted hex s)
    → Accepted hex (c ∷ c2 ∷ s)
pair-Accepted c c2 s ret out h rest = elim (Bool-cases (is_hex c)) [
  | inr bad ↦ absurd (none-some _ out (fails (inl bad)) h)
  | inl good ↦ elim (Bool-cases (is_hex c2)) [
    | inr bad ↦ absurd (none-some _ out (fails (inr bad)) h)
    | inl good2 ↦
        let (high, a, e) = digit_of c good in
        let (low, b, e2) = digit_of c2 good2 in
        let number : pair c c2 ≡ some (low + 16 * high) =
          (λ i. pair (sym e i) (sym e2 i)) ∙ pair-digits high low a b in
        let (is, d) = rest (ret ++ printed (low + 16 * high)) (rw number at h) in
        (
          octet (low + 16 * high) ∷ is,
          subst (λ x. Denotes hex (x ∷ c2 ∷ s) (octet (low + 16 * high) ∷ is)) e
              (subst (λ x. Denotes hex (digit high ∷ x ∷ s) (octet (low + 16 * high) ∷ is)) e2
                (two a b d)),
        )
  ]
]
  where
    fails :
        (is_hex c ≡ false) ⊎ (is_hex c2 ≡ false)
        → (pair c c2 >>= λ number. loop s hex (ret ++ printed number)) ≡ none
    fails bad = ap (λ r. r >>= λ number. loop s hex (ret ++ printed number)) (pair-none c c2 bad)

loop-Accepted :
    (s : List ℕ) (mode : Mode) (ret out : List ℕ) → loop s mode ret ≡ some out → Accepted mode s
loop-Accepted [] char ret out h = ([], end)
loop-Accepted [] hex ret out h = absurd (none-some _ out (loop-empty ret) h)
loop-Accepted (c ∷ s) char ret out h = char-Accepted c s ret out h (λ m r. loop-Accepted s m r out)
loop-Accepted (c ∷ []) hex ret out h =
    hex-Accepted c [] ret out h (λ m r. loop-Accepted [] m r out)
      (λ off1 off2. absurd (none-some _ out (loop-odd ret c off1 off2) h))
loop-Accepted (c ∷ c2 ∷ s) hex ret out h =
    hex-Accepted c (c2 ∷ s) ret out h (λ m r. loop-Accepted (c2 ∷ s) m r out)
      (λ off1 off2.
        pair-Accepted c c2 s ret out (sym (loop-pair ret c c2 s off1 off2) ∙ h)
          (λ r. loop-Accepted s hex r out))

-- The loop ends without a failed assertion, and then with `out`, just for the strings of the
-- grammar, for whose members `out` has the decimal numbers, each with a space behind it.
pub loop_iff :
    (s out : List ℕ)
    → (loop s char [] ≡ some out) ↔ ((is : List Item) × Denotes char s is × (out ≡ text is))
loop_iff s out = (
  λ h. let (is, d) = loop-Accepted s char [] out h in (is, d, some-inj (sym h ∙ loop-text [] d)),
  λ p. let (is, d, e) = p in loop-text [] d ∙ ap some (sym e),
)
  where
    some-inj : {a b : List ℕ} → some a ≡ some b → a ≡ b
    some-inj e = cc
