-- ===== src/Content/Grammar.antt =====
-- The content strings that hyperscan/vs_dfc/snort_patterns/content_to_bytes.cc accepts, and what it
-- prints for them.
use systemish.Base.{
  ℕ, ◌+◌, ◌*◌, ◌<◌, ◌≡◌, ◌≢◌, refl, ap, sym, ◌∙◌, ltb, ◌==◌, if◌then◌else◌, false, List, [], ◌∷◌,
  ◌++◌, some, none, ◌>>=◌, arith,
}
use mathlib.Core.List.{append_assoc, append-nil}
use systemish.Content.{
  Mode, char, hex, invert, is_hex, is_hex_char, is_hex_number, hex_to_int, pair, turn, loop,
  printed, size_of, bar, space,
}

-- A member of a content string: a character, or a byte in hexadecimal.
pub data Item : Type 0 where
  letter : ℕ → Item
  octet : ℕ → Item

-- the byte that it stands for, and the number that is printed
abbrev pub byte_of : Item → ℕ
byte_of (letter c) = c
byte_of (octet b) = b

abbrev pub number_of : Item → ℕ
number_of (letter c) = size_of c
number_of (octet b) = b

-- An upper-case hexadecimal digit.
abbrev pub digit : ℕ → ℕ
digit d = if ltb d 10 then 48 + d else 55 + d

-- The strings, from either mode on, with what they are made of.
pub data Denotes : Mode → List ℕ → List Item → Type 0 where
  end : Denotes char [] []
  plain :
      {c : ℕ} {s : List ℕ} {is : List Item}
      → c ≢ bar
      → Denotes char s is
      → Denotes char (c ∷ s) (letter c ∷ is)
  enter : {s : List ℕ} {is : List Item} → Denotes hex s is → Denotes char (bar ∷ s) is
  leave : {s : List ℕ} {is : List Item} → Denotes char s is → Denotes hex (bar ∷ s) is
  gap : {s : List ℕ} {is : List Item} → Denotes hex s is → Denotes hex (space ∷ s) is
  two :
      {high low : ℕ} {s : List ℕ} {is : List Item}
      → high < 16
      → low < 16
      → Denotes hex s is
      → Denotes hex (digit high ∷ digit low ∷ s) (octet (low + 16 * high) ∷ is)

abbrev pub text : List Item → List ℕ
text [] = []
text (i ∷ is) = printed (number_of i) ++ text is

pub hex_to_int-digit : (d : ℕ) → d < 16 → hex_to_int (digit d) ≡ some d
unfolding hex_to_int is_hex is_hex_char is_hex_number
hex_to_int-digit d h = ground (arith, h)

pub pair-digits :
    (high low : ℕ) → high < 16 → low < 16 → pair (digit high) (digit low) ≡ some (low + 16 * high)
unfolding pair
pair-digits high low h l = rw (hex_to_int-digit high h, hex_to_int-digit low l) refl

-- A character in hexadecimal mode that is a digit is neither a bar nor a space.
digit-plain : (d : ℕ) → d < 16 → ((digit d == bar) ≡ false) × ((digit d == space) ≡ false)
digit-plain d h = (ground (arith, h), ground (arith, h))

off : (c k : ℕ) → c ≢ k → (c == k) ≡ false
off c k h = ground (arith, h)

-- The loop at a character of each kind.
module _ (ret : List ℕ) where
  pub loop-plain :
      (c : ℕ) (s : List ℕ)
      → (c == bar) ≡ false
      → loop (c ∷ s) char ret ≡ loop s char (ret ++ printed (size_of c))
  unfolding loop turn
  loop-plain c [] e = rw e refl
  loop-plain c (c2 ∷ s) e = rw e refl

  pub loop-bar : (mode : Mode) (s : List ℕ) → loop (bar ∷ s) mode ret ≡ loop s (invert mode) ret
  unfolding loop turn
  loop-bar char [] = refl
  loop-bar char (c2 ∷ s) = refl
  loop-bar hex [] = refl
  loop-bar hex (c2 ∷ s) = refl

  pub loop-gap : (s : List ℕ) → loop (space ∷ s) hex ret ≡ loop s hex ret
  unfolding loop turn
  loop-gap [] = refl
  loop-gap (c2 ∷ s) = refl

  pub loop-pair :
      (c c2 : ℕ) (s : List ℕ)
      → (c == bar) ≡ false
      → (c == space) ≡ false
      → loop (c ∷ c2 ∷ s) hex ret ≡ (pair c c2 >>= λ number. loop s hex (ret ++ printed number))
  unfolding loop turn
  loop-pair c c2 s e e' = rw (e, e') refl

  pub loop-odd : (c : ℕ) → (c == bar) ≡ false → (c == space) ≡ false → loop (c ∷ []) hex ret ≡ none
  unfolding loop turn
  loop-odd c e e' = rw (e, e') refl

  text-cons :
      (n : ℕ) (is : List Item) → (ret ++ printed n) ++ text is ≡ ret ++ (printed n ++ text is)
  text-cons n is = append_assoc ret (printed n) (text is)

-- The loop prints the members of the strings that it accepts.
pub loop-text :
    {mode : Mode} {s : List ℕ} {is : List Item} (ret : List ℕ)
    → Denotes mode s is
    → loop s mode ret ≡ some (ret ++ text is)
unfolding loop invert
loop-text ret end = ap some (sym (append-nil ret))
loop-text ret (plain {c} {s} {is} h d) =
    loop-plain ret c s (off c bar h)
    ∙ loop-text (ret ++ printed (size_of c)) d
    ∙ ap some (text-cons ret (size_of c) is)
loop-text ret (enter {s} d) = loop-bar ret char s ∙ loop-text ret d
loop-text ret (leave {s} d) = loop-bar ret hex s ∙ loop-text ret d
loop-text ret (gap {s} d) = loop-gap ret s ∙ loop-text ret d
loop-text ret (two {high} {low} {s} {is} h l d) =
    let (a, b) = digit-plain high h in
    loop-pair ret (digit high) (digit low) s a b
    ∙ ap (λ r. r >>= λ number. loop s hex (ret ++ printed number)) (pair-digits high low h l)
    ∙ loop-text (ret ++ printed (low + 16 * high)) d
    ∙ ap some (text-cons ret (low + 16 * high) is)
