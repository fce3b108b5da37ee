-- ===== src/RawEth/Inet.antt =====
-- The text of a MAC address in raw_eth/utils/inet_hdrs.h. Characters are their codes.
use systemish.Base.{
  false, true, ℕ, ◌+◌, ◌-◌, ◌*◌, ◌/◌, ◌%◌, ◌<◌, ◌≡◌, refl, ap, ◌∙◌, arith, ltb, ◌==◌, if◌then◌else◌,
  Bool-cases, inl, inr, List, [], ◌∷◌, ◌++◌, All, length,
}

abbrev pub colon : ℕ
colon = 58

-- `std::hex` of one digit, and of a byte without leading zeros
unfoldable pub hex_digit : ℕ → ℕ
hex_digit d = if ltb d 10 then 48 + d else 87 + d

unfoldable pub to_hex : ℕ → List ℕ
to_hex b = if ltb b 16 then hex_digit b ∷ [] else hex_digit (b / 16) ∷ hex_digit (b % 16) ∷ []

-- The loop from `i` on, for the bytes that are left.
unfoldable pub mac_loop : ℕ → List ℕ → List ℕ
mac_loop i [] = []
mac_loop i (b ∷ bs) =
    let rest = mac_loop (i + 1) bs in to_hex b ++ (if i == 5 then rest else colon ∷ rest)

unfoldable pub mac_to_string : List ℕ → List ℕ
unfolding mac_loop
mac_to_string mac = mac_loop 0 mac

-- A reading of such a text: the bytes between the colons.
abbrev pub digit_of : ℕ → ℕ
digit_of c = if ltb c 58 then c - 48 else c - 87

abbrev pub read_mac : ℕ → List ℕ → List ℕ
read_mac byte [] = byte ∷ []
read_mac byte (c ∷ cs) =
    let next = read_mac 0 cs in
    let more = read_mac (byte * 16 + digit_of c) cs in if c == colon then byte ∷ next else more

read-digit :
    (byte d : ℕ) (cs : List ℕ)
    → d < 16
    → read_mac byte (hex_digit d ∷ cs) ≡ read_mac (byte * 16 + d) cs
unfolding hex_digit
read-digit byte d cs low = rw (letter, value) refl
  where
    letter : ((if ltb d 10 then 48 + d else 87 + d) == colon) ≡ false
    letter = ground (arith, low)

    value : digit_of (if ltb d 10 then 48 + d else 87 + d) ≡ d
    value = ground (arith, low)

read-to_hex : (b : ℕ) (cs : List ℕ) → b < 256 → read_mac 0 (to_hex b ++ cs) ≡ read_mac b cs
unfolding to_hex
read-to_hex b cs low = elim (Bool-cases (ltb b 16)) [
  | inl small ↦
      rw small (read-digit 0 b cs (ground (arith, small)) ∙ ap (λ n. read_mac n cs) (omega arith))
  | inr big ↦ rw big (
      read-digit 0 (b / 16) (hex_digit (b % 16) ∷ cs) (omega arith)
      ∙ read-digit (0 * 16 + b / 16) (b % 16) cs (omega arith)
      ∙ ap (λ n. read_mac n cs) (omega arith))
]

read-mac_loop :
    (i : ℕ) (b : ℕ) (bs : List ℕ)
    → i + length (b ∷ bs) ≡ 6
    → All (λ x. x < 256) (b ∷ bs)
    → read_mac 0 (mac_loop i (b ∷ bs)) ≡ b ∷ bs
unfolding mac_loop
read-mac_loop i b [] n (low, _) = rw last (read-to_hex b [] low)
  where
    last : (i == 5) ≡ true
    last = ground (arith, n)
read-mac_loop i b (b' ∷ bs) n (low, lows) = rw more (
    read-to_hex b (colon ∷ mac_loop (i + 1) (b' ∷ bs)) low
    ∙ ap (λ l. b ∷ l) (read-mac_loop (i + 1) b' bs (omega (arith, n)) lows))
  where
    more : (i == 5) ≡ false
    more = ground (arith, n)

-- The text of a MAC address determines it: reading the bytes between the colons gives it back,
-- though the digits have no leading zeros.
pub read_mac-mac_to_string :
    (b : ℕ) (bs : List ℕ)
    → length (b ∷ bs) ≡ 6
    → All (λ x. x < 256) (b ∷ bs)
    → read_mac 0 (mac_to_string (b ∷ bs)) ≡ b ∷ bs
unfolding mac_to_string
read_mac-mac_to_string b bs n lows = read-mac_loop 0 b bs (omega (arith, n)) lows
