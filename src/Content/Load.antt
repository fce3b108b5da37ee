-- ===== src/Content/Load.antt =====
-- From the content strings of hyperscan/vs_dfc/snort_patterns to the patterns that
-- hyperscan/vs_dfc/bench.cc matches.
use systemish.Base.{
  ℕ, suc, ◌%◌, ◌^◌, ◌<◌, ◌≡◌, refl, ap, sym, ◌∙◌, List, [], ◌∷◌, ◌++◌, some, ◌>>=◌, All, length,
  is_empty, false, arith,
}
use mathlib.Core.List.{append_assoc, append-nil}
use systemish.Content.{
  char, to_string, printed, process, convert, stored, gen_from_string, ByteArr, load, Boost,
  IsBoost, IsWord, StartsWithDigit, EndsWithDigit, space, stoull, size_of,
}
use systemish.Content.Decimal.{to_string-IsWord, stoull-to_string}
use systemish.Content.Grammar.{
  Item, letter, octet, byte_of, number_of, Denotes, plain, enter, text, loop-text,
}

-- words with a space between any two
abbrev joined : List (List ℕ) → List ℕ
joined [] = []
joined (w ∷ []) = w
joined (w ∷ v ∷ ws) = w ++ space ∷ joined (v ∷ ws)

abbrev words : List Item → List (List ℕ)
words [] = []
words (i ∷ is) = to_string (number_of i) ∷ words is

words-IsWord : (is : List Item) → All IsWord (words is)
words-IsWord [] = tt
words-IsWord (i ∷ is) = (to_string-IsWord (number_of i), words-IsWord is)

text-joined : (i : Item) (is : List Item) → text (i ∷ is) ≡ joined (words (i ∷ is)) ++ space ∷ []
unfolding printed
text-joined i [] = append-nil _
text-joined i (j ∷ is) =
    ap (λ t. (to_string (number_of i) ++ space ∷ []) ++ t) (text-joined j is)
    ∙ append_assoc (to_string (number_of i)) (space ∷ []) _
    ∙ sym (append_assoc (to_string (number_of i)) (space ∷ joined (words (j ∷ is))) (space ∷ []))

word-Starts : (w s : List ℕ) → IsWord w → StartsWithDigit (w ++ s)
word-Starts [] s (ne, p) = absurd (ne refl)
word-Starts (c ∷ w) s (ne, (e, p)) = e

word-Ends : (w : List ℕ) → IsWord w → EndsWithDigit w
word-Ends [] (ne, p) = ne refl
word-Ends (c ∷ []) (ne, (e, p)) = e
word-Ends (c ∷ d ∷ w) (ne, (e, p)) = word-Ends (d ∷ w) ((λ q. cc), p)

Ends-append : (s t : List ℕ) → EndsWithDigit t → EndsWithDigit (s ++ t)
Ends-append [] t h = h
Ends-append (x ∷ []) [] h = absurd h
Ends-append (x ∷ []) (y ∷ t) h = h
Ends-append (x ∷ y ∷ s) t h = Ends-append (y ∷ s) t h

Ends-cons : (c : ℕ) (s : List ℕ) → EndsWithDigit s → EndsWithDigit (c ∷ s)
Ends-cons c [] h = absurd h
Ends-cons c (x ∷ s) h = h

joined-Starts :
    (w : List ℕ) (ws : List (List ℕ)) → All IsWord (w ∷ ws) → StartsWithDigit (joined (w ∷ ws))
joined-Starts [] [] ((ne, p), q) = ne refl
joined-Starts (c ∷ w) [] ((ne, (e, p)), q) = e
joined-Starts w (v ∷ ws) (p, q) = word-Starts w _ p

joined-Ends :
    (w : List ℕ) (ws : List (List ℕ)) → All IsWord (w ∷ ws) → EndsWithDigit (joined (w ∷ ws))
joined-Ends w [] (p, q) = word-Ends w p
joined-Ends w (v ∷ ws) (p, q) =
    Ends-append w (space ∷ joined (v ∷ ws)) (Ends-cons space (joined (v ∷ ws)) (joined-Ends v ws q))

-- What the items of a content string are stored as.
abbrev pub bytes_of : List Item → List ℕ
bytes_of [] = []
bytes_of (i ∷ is) = byte_of i ∷ bytes_of is

abbrev pub IsByte : Item → Type 0
IsByte i = byte_of i < 2 ^ 8

stored-word :
    (i : Item)
    → IsByte i
    → (stoull (to_string (number_of i)) ≡ some (number_of i)) × (number_of i % 2 ^ 8 ≡ byte_of i)
unfolding size_of
stored-word (letter c) h = (stoull-to_string (size_of c) (ground (arith, h)), ground (arith, h))
stored-word (octet b) h = (stoull-to_string b (omega (arith, h)), omega (arith, h))

stored-bytes : (is : List Item) → All IsByte is → stored (words is) ≡ some (bytes_of is)
unfolding stored
stored-bytes [] p = refl
stored-bytes (i ∷ is) (h, p) = let (a, b) = stored-word i h in rw (a, stored-bytes is p, b) refl

length-words : (is : List Item) → length (words is) ≡ length is
length-words [] = refl
length-words (i ∷ is) = ap suc (length-words is)

-- The array of bytes, with the null that ends it.
abbrev pub array_of : List Item → ByteArr
array_of is = record { num_bytes = length is; bytes = bytes_of is ++ 0 ∷ [] }

-- Lines of a file, none of them empty, that denote members, with at least one in each.
pub data File : List (List ℕ) → List (List Item) → Type 0 where
  no_line : File [] []
  line_of :
      {s : List ℕ} {i : Item} {is : List Item} {lines : List (List ℕ)} {rest : List (List Item)}
      → Denotes char s (i ∷ is)
      → All IsByte (i ∷ is)
      → File lines rest
      → File (s ∷ lines) ((i ∷ is) ∷ rest)

abbrev pub arrays_of : List (List Item) → List ByteArr
arrays_of [] = []
arrays_of (is ∷ rest) = array_of is ∷ arrays_of rest

module _ (lib : Boost) (law : IsBoost lib) where
  split-joined :
      (w : List ℕ) (ws : List (List ℕ)) → All IsWord (w ∷ ws) → lib.split (joined (w ∷ ws)) ≡ w ∷ ws
  split-joined w [] (p, q) = law.split_word w p
  split-joined w (v ∷ ws) (p, q) =
      law.split_space w (joined (v ∷ ws)) p ∙ ap (λ t. w ∷ t) (split-joined v ws q)

  process-joined :
      (s : List ℕ) (i : Item) (is : List Item)
      → Denotes char s (i ∷ is)
      → process lib s ≡ some (joined (words (i ∷ is)))
  unfolding process
  process-joined s i is d =
      let all = words-IsWord (i ∷ is) in
      ap (λ r. r >>= λ ret. some (lib.trim ret)) (loop-text [] d ∙ ap some (text-joined i is))
      ∙ ap some (
          law.trim_end (joined (words (i ∷ is))) (joined-Starts _ (words is) all)
            (joined-Ends _ (words is) all))

  gen_from_string-array :
      (i : Item) (is : List Item)
      → All IsByte (i ∷ is)
      → gen_from_string lib (joined (words (i ∷ is))) ≡ some (array_of (i ∷ is))
  unfolding gen_from_string
  gen_from_string-array i is p =
      rw
        (
          split-joined (to_string (number_of i)) (words is) (words-IsWord (i ∷ is)),
          stored-bytes (i ∷ is) p,
          length-words is,
        )
        refl

  line-nonempty :
      (s : List ℕ) (i : Item) (is : List Item) → Denotes char s (i ∷ is) → is_empty s ≡ false
  line-nonempty s i is (plain h d) = refl
  line-nonempty s i is (enter d) = refl

  Starts-nonempty : (t : List ℕ) → StartsWithDigit t → is_empty t ≡ false
  Starts-nonempty [] h = absurd h
  Starts-nonempty (c ∷ t) h = refl

  abbrev texts : List (List Item) → List (List ℕ)
  texts [] = []
  texts (is ∷ rest) = joined (words is) ∷ texts rest

  convert-texts :
      (lines : List (List ℕ)) (rest : List (List Item))
      → File lines rest
      → convert lib lines ≡ some (texts rest)
  unfolding convert
  convert-texts lines rest no_line = refl
  convert-texts lines rest (line_of {s} {i} {is} {lines = more} {rest = tail} d p f) =
      rw (line-nonempty s i is d, process-joined s i is d, convert-texts more tail f) refl

  load-texts :
      (lines : List (List ℕ)) (rest : List (List Item))
      → File lines rest
      → load lib (texts rest) ≡ some (arrays_of rest)
  unfolding load
  load-texts lines rest no_line = refl
  load-texts lines rest (line_of {s} {i} {is} {lines = more} {rest = tail} d p f) =
      let full =
        Starts-nonempty (joined (words (i ∷ is)))
          (joined-Starts _ (words is) (words-IsWord (i ∷ is))) in
      rw (full, gen_from_string-array i is p, load-texts more tail f) refl

  -- With the documented behaviour of `trim` and `split`, the patterns that `bench.cc` loads from
  -- the output for a file of content strings, each with at least one member, are the bytes that the
  -- strings denote, characters from 128 on included; neither program stops at an error.
  pub convert-load :
      (lines : List (List ℕ)) (rest : List (List Item))
      → File lines rest
      → (convert lib lines >>= λ texts. load lib texts) ≡ some (arrays_of rest)
  convert-load lines rest f = rw (convert-texts lines rest f) (load-texts lines rest f)
