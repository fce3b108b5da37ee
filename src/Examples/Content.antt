-- ===== src/Examples/Content.antt =====
-- The conversion of hyperscan/vs_dfc/snort_patterns at a concrete input.
use systemish.Base.{
  ◌∙◌, ℕ, ◌≡◌, refl, ap, List, [], ◌∷◌, ◌++◌, some, none, ◌>>=◌, is_empty, ◌&&◌, ◌==◌,
  if◌then◌else◌, true, false, arith, Bool-cases, inl, inr, All, ◌↔◌,
}
use systemish.Content.Accept.{loop_iff}
use systemish.Content.{
  char, Boost, IsBoost, StartsWithDigit, EndsWithDigit, is_hex_number, space, bar, loop, load,
  convert, turn, invert, pair, hex_to_int, is_hex, is_hex_char,
}
use systemish.Content.Grammar.{
  letter, octet, Item, Denotes, text, end, plain, enter, leave, gap, two,
}
use systemish.Content.Load.{File, no_line, line_of, arrays_of, convert-load}

-- Two functions that do what Boost's documentation says, on spaces.
drop_start : List ℕ → List ℕ
drop_start [] = []
drop_start (c ∷ s) = if c == space then drop_start s else c ∷ s

drop_end : List ℕ → List ℕ
drop_end [] = []
drop_end (c ∷ s) = let rest = drop_end s in if (c == space) && is_empty rest then [] else c ∷ rest

add_first : ℕ → List (List ℕ) → List (List ℕ)
add_first c [] = (c ∷ []) ∷ []
add_first c (w ∷ ws) = (c ∷ w) ∷ ws

cut : List ℕ → List (List ℕ)
cut [] = [] ∷ []
cut (c ∷ s) = let rest = cut s in if c == space then [] ∷ rest else add_first c rest

abbrev spaces : Boost
spaces = record { trim = λ s. drop_end (drop_start s); split = cut }

digit-not_space : (c : ℕ) → is_hex_number c ≡ true → (c == space) ≡ false
unfolding is_hex_number
digit-not_space c h = ground (arith, h)

drop_start-digit : (s t : List ℕ) → StartsWithDigit s → drop_start (s ++ t) ≡ s ++ t
unfolding drop_start
drop_start-digit [] t h = absurd h
drop_start-digit (c ∷ s) t h = rw (digit-not_space c h) refl

drop_end-space : (s : List ℕ) → EndsWithDigit s → drop_end (s ++ space ∷ []) ≡ s
unfolding drop_end
drop_end-space [] h = absurd h
drop_end-space (c ∷ []) h = rw (digit-not_space c h) refl
drop_end-space (c ∷ d ∷ s) h = elim (Bool-cases (c == space)) [
  | inl at ↦ rw (drop_end-space (d ∷ s) h, at) refl
  | inr other ↦ rw (drop_end-space (d ∷ s) h, other) refl
]

cut-word : (w : List ℕ) → All (λ c. is_hex_number c ≡ true) w → cut w ≡ w ∷ []
unfolding cut add_first
cut-word [] p = refl
cut-word (c ∷ w) (h, p) = rw (digit-not_space c h, cut-word w p) refl

cut-space : (w s : List ℕ) → All (λ c. is_hex_number c ≡ true) w → cut (w ++ space ∷ s) ≡ w ∷ cut s
unfolding cut add_first
cut-space [] s p = refl
cut-space (c ∷ w) s (h, p) = rw (digit-not_space c h, cut-space w s p) refl

abbrev spaces_law : IsBoost spaces
spaces_law = record {
  trim_end = λ s h k. ap drop_end (drop_start-digit s (space ∷ []) h) ∙ drop_end-space s k;
  split_word = λ w p. cut-word w p.1;
  split_space = λ w s p. cut-space w s p.1;
}

-- a|41 FF|
abbrev first_line : List ℕ
first_line = 97 ∷ bar ∷ 52 ∷ 49 ∷ space ∷ 70 ∷ 70 ∷ bar ∷ []

abbrev first_items : List Item
first_items = letter 97 ∷ octet 65 ∷ octet 255 ∷ []

abbrev first_Denotes : Denotes char first_line first_items
first_Denotes = plain (omega arith) (
    enter (
      two {high = 4} {low = 1} (omega arith) (omega arith)
        (gap (two {high = 15} {low = 15} (omega arith) (omega arith) (leave end)))))

-- The one character 0xE9.
abbrev lines : List (List ℕ)
lines = first_line ∷ (233 ∷ []) ∷ []

abbrev items : List (List Item)
items = first_items ∷ (letter 233 ∷ []) ∷ []

abbrev file : File lines items
file =
    line_of first_Denotes (omega arith, (omega arith, (omega arith, tt)))
      (line_of (plain (omega arith) end) (omega arith, tt) no_line)

convert-load_example :
    (convert spaces lines >>= λ texts. load spaces texts) ≡ some (arrays_of items)
convert-load_example = convert-load spaces spaces_law lines items file

loop_iff_example :
    (loop first_line char [] ≡ some (text first_items))
    ↔ ((is : List Item) × Denotes char first_line is × (text first_items ≡ text is))
loop_iff_example = loop_iff first_line (text first_items)

-- A digit that is missing stops the program.
odd_test : loop (bar ∷ 52 ∷ bar ∷ []) char [] ≡ none
unfolding loop turn invert pair hex_to_int is_hex is_hex_char is_hex_number
odd_test = refl
