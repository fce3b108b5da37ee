-- ===== src/Content.antt =====
-- hyperscan/vs_dfc/snort_patterns/content_to_bytes.cc, which turns the content strings of Snort
-- rules into lists of decimal bytes, and the part of hyperscan/vs_dfc/bench.cc that loads such a
-- list. A `char` is its byte, a line of a file the list of its bytes. A failed assertion is `none`.
pub mod Decimal
pub mod Grammar
pub mod Accept
pub mod Load
use systemish.Base.{
  ℕ, zero, suc, ◌+◌, ◌-◌, ◌*◌, ◌/◌, ◌%◌, ◌^◌, ◌≡◌, ◌≢◌, ◌==◌, ltb, leb, ◌&&◌, ◌||◌, if◌then◌else◌,
  Bool, true, false, List, [], ◌∷◌, ◌++◌, Option, some, none, ◌>>=◌, All, length, is_empty,
}

abbrev pub space : ℕ
space = 32

-- '|'
abbrev pub bar : ℕ
bar = 124

pub data Mode : Type 0 where
  char : Mode  -- kChar
  hex : Mode  -- kHex

unfoldable pub invert : Mode → Mode
invert char = hex
invert hex = char

unfoldable pub is_hex_char : ℕ → Bool
is_hex_char c = leb 65 c && leb c 70

unfoldable pub is_hex_number : ℕ → Bool
is_hex_number c = leb 48 c && leb c 57

unfoldable pub is_hex : ℕ → Bool
unfolding is_hex_char is_hex_number
is_hex c = is_hex_char c || is_hex_number c

unfoldable pub hex_to_int : ℕ → Option ℕ
unfolding is_hex is_hex_number
hex_to_int c = elim (is_hex c) [
  | false ↦ none
  | true ↦ if is_hex_number c then some (c - 48) else some (10 + (c - 65))
]

-- `static_cast<size_t>(c)` of a signed `char`
unfoldable pub size_of : ℕ → ℕ
size_of c = if ltb c 128 then c else c + 2 ^ 64 - 2 ^ 8

-- `std::to_string`: the digits of a number, at most `fuel` of them.
unfoldable pub decimal : ℕ → ℕ → List ℕ
decimal zero n = []
decimal (suc fuel) n =
    if ltb n 10 then (48 + n) ∷ [] else decimal fuel (n / 10) ++ (48 + n % 10) ∷ []

abbrev pub to_string : ℕ → List ℕ
to_string n = decimal 20 n

-- What the programs take from Boost: `trim`, and `split` at the spaces.
pub record Boost : Type 0 where
  pub trim : List ℕ → List ℕ
  pub split : List ℕ → List (List ℕ)

-- What a number adds to `ret`.
unfoldable pub printed : ℕ → List ℕ
unfolding decimal
printed n = to_string n ++ space ∷ []

-- The number behind two hexadecimal digits.
unfoldable pub pair : ℕ → ℕ → Option ℕ
unfolding hex_to_int
pair c c2 = hex_to_int c2 >>= λ low. hex_to_int c >>= λ high. some (low + 16 * high)

-- One turn of the loop over a line, for how it goes on: `next` with a new mode and `ret`, or `two`
-- where it takes two characters.
unfoldable pub turn :
    ℕ → Mode → List ℕ → (Mode → List ℕ → Option (List ℕ)) → Option (List ℕ) → Option (List ℕ)
unfolding invert printed size_of
turn c char ret next two =
    if c == bar then next (invert char) ret else next char (ret ++ printed (size_of c))
turn c hex ret next two =
    if c == bar then next (invert hex) ret else if c == space then next hex ret else two

unfoldable pub loop : List ℕ → Mode → List ℕ → Option (List ℕ)
unfolding turn pair printed
loop [] char ret = some ret
loop [] hex ret = none
loop (c ∷ []) mode ret = turn c mode ret (λ m r. loop [] m r) none
loop (c ∷ c2 ∷ line) mode ret =
    turn c mode ret (λ m r. loop (c2 ∷ line) m r)
      (pair c c2 >>= λ number. loop line mode (ret ++ printed number))

-- The output for a line.
unfoldable pub process : Boost → List ℕ → Option (List ℕ)
unfolding loop
process lib line = loop line char [] >>= λ ret. some (lib.trim ret)

-- `main` of content_to_bytes.cc, for the lines of its file.
unfoldable pub convert : Boost → List (List ℕ) → Option (List (List ℕ))
unfolding process
convert lib [] = some []
convert lib (line ∷ lines) =
    if is_empty line
    then some []
    else (process lib line >>= λ text. convert lib lines >>= λ rest. some (text ∷ rest))

-- The digits at the start of a string, as `strtoull` reads them behind the number `n`.
unfoldable pub digits : ℕ → List ℕ → ℕ
unfolding is_hex_number
digits n [] = n
digits n (c ∷ s) = if is_hex_number c then digits (10 * n + (c - 48)) s else n

-- `none` is an exception: there is no digit, or the number does not fit.
unfoldable pub unsigned : List ℕ → Option ℕ
unfolding digits is_hex_number
unsigned [] = none
unsigned (c ∷ s) =
    let n : ℕ = digits 0 (c ∷ s) in if is_hex_number c && ltb n (2 ^ 64) then some n else none

unfoldable pub with_sign : ℕ → List ℕ → Option ℕ
unfolding unsigned
with_sign c s =
    if c == 43
    then unsigned s
    else (if c == 45 then (unsigned s >>= λ n. some ((2 ^ 64 - n) % 2 ^ 64)) else unsigned (c ∷ s))

unfoldable pub is_space : ℕ → Bool
is_space c = c == space || (leb 9 c && leb c 13)

-- `std::stoull`
unfoldable pub stoull : List ℕ → Option ℕ
unfolding with_sign is_space
stoull [] = none
stoull (c ∷ s) = if is_space c then stoull s else with_sign c s

-- `byte_arr_t`
pub record ByteArr : Type 0 where
  pub num_bytes : ℕ
  pub bytes : List ℕ

-- The loop over the words of a line.
unfoldable pub stored : List (List ℕ) → Option (List ℕ)
unfolding stoull
stored [] = some []
stored (word ∷ words) = stoull word >>= λ n. stored words >>= λ rest. some (n % 2 ^ 8 ∷ rest)

unfoldable pub gen_from_string : Boost → List ℕ → Option ByteArr
unfolding stored
gen_from_string lib text =
    let words = lib.split text in
    if is_empty words
    then none
    else (stored words >>= λ bytes.
        some (record { num_bytes = length words; bytes = bytes ++ 0 ∷ [] }))

-- The loop of `main` of bench.cc over the lines of a file of patterns.
unfoldable pub load : Boost → List (List ℕ) → Option (List ByteArr)
unfolding gen_from_string
load lib [] = some []
load lib (line ∷ lines) =
    if is_empty line
    then some []
    else (gen_from_string lib line >>= λ virus. load lib lines >>= λ rest. some (virus ∷ rest))

-- A word of digits.
abbrev pub IsWord : List ℕ → Type 0
IsWord w = (w ≢ []) × All (λ c. is_hex_number c ≡ true) w

abbrev pub StartsWithDigit : List ℕ → Type 0
StartsWithDigit [] = ⊥
StartsWithDigit (c ∷ s) = is_hex_number c ≡ true

abbrev pub EndsWithDigit : List ℕ → Type 0
EndsWithDigit [] = ⊥
EndsWithDigit (c ∷ []) = is_hex_number c ≡ true
EndsWithDigit (c ∷ d ∷ s) = EndsWithDigit (d ∷ s)

-- The documented behaviour of the two algorithms: `trim` takes a space off the end, where there
-- is no other around, and `split` cuts at each space.
pub record IsBoost (lib : Boost) : Type 0 where
  pub trim_end : (s : List ℕ) → StartsWithDigit s → EndsWithDigit s → lib.trim (s ++ space ∷ []) ≡ s
  pub split_word : (w : List ℕ) → IsWord w → lib.split w ≡ w ∷ []
  pub split_space : (w s : List ℕ) → IsWord w → lib.split (w ++ space ∷ s) ≡ w ∷ lib.split s
