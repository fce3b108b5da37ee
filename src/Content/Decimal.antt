-- ===== src/Content/Decimal.antt =====
-- Decimal numbers as text, in hyperscan/vs_dfc: `std::to_string` and `std::stoull`.
use systemish.Base.{
  ℕ, zero, suc, ◌+◌, ◌-◌, ◌*◌, ◌/◌, ◌%◌, ◌^◌, ◌<◌, ◌≡◌, ◌≢◌, refl, ap, ◌∙◌, ltb, ◌==◌, ◌&&◌,
  if◌then◌else◌, Bool-cases, inl, inr, Bool, true, false, List, [], ◌∷◌, ◌++◌, some, none, All,
  All-append, arith,
}
use systemish.Content.{
  decimal, to_string, digits, unsigned, with_sign, is_space, stoull, IsWord, is_hex_number,
}

digits-append :
    (m : ℕ) (xs : List ℕ) (d : ℕ)
    → All (λ c. is_hex_number c ≡ true) xs
    → d < 10
    → digits m (xs ++ (48 + d) ∷ []) ≡ 10 * digits m xs + d
unfolding digits is_hex_number
digits-append m [] d p h =
    let e : is_hex_number (48 + d) ≡ true = ground arith in rw e (omega arith)
digits-append m (x ∷ xs) d (e, p) h = rw e (digits-append (10 * m + (x - 48)) xs d p h)

decimal-digits : (fuel n : ℕ) → All (λ c. is_hex_number c ≡ true) (decimal fuel n)
unfolding decimal is_hex_number
decimal-digits zero n = tt
decimal-digits (suc fuel) n = elim (Bool-cases (ltb n 10)) [
  | inl low ↦ rw low (ground (arith, low), tt)
  | inr high ↦ rw high (
      All-append (λ c. is_hex_number c ≡ true) (decimal fuel (n / 10)) _
        (decimal-digits fuel (n / 10)) (ground arith, tt))
]

digits-decimal : (fuel n : ℕ) → n < 10 ^ fuel → digits 0 (decimal fuel n) ≡ n
unfolding decimal digits is_hex_number
digits-decimal zero n h = omega (arith, h)
digits-decimal (suc fuel) n h = elim (Bool-cases (ltb n 10)) [
  | inl low ↦
      let e : is_hex_number (48 + n) ≡ true = ground (arith, low) in rw (low, e) (omega arith)
  | inr high ↦ rw high (
      digits-append 0 (decimal fuel (n / 10)) (n % 10) (decimal-digits fuel (n / 10)) (omega arith)
      ∙ ap (λ k. 10 * k + n % 10) (digits-decimal fuel (n / 10) (omega (arith, h)))
      ∙ omega arith)
]

append-nonempty : (xs : List ℕ) (y : ℕ) → (xs ++ y ∷ []) ≢ []
append-nonempty [] y = λ e. cc
append-nonempty (x ∷ xs) y = λ e. cc

pub to_string-IsWord : (n : ℕ) → IsWord (to_string n)
unfolding decimal
to_string-IsWord n = (
  elim (Bool-cases (ltb n 10)) [
    | inl low ↦ rw low (λ e. cc)
    | inr high ↦ rw high (append-nonempty (decimal 19 (n / 10)) (48 + n % 10))
  ],
  decimal-digits 20 n,
)

in_range :
    (b : Bool) (n : ℕ)
    → b ≡ true
    → n < 2 ^ 64
    → (if b && ltb n (2 ^ 64) then some n else none) ≡ some n
in_range b n e h = let low : ltb n (2 ^ 64) ≡ true = ground (arith, h) in rw (e, low) refl

unsigned-digits :
    (c : ℕ) (s : List ℕ)
    → is_hex_number c ≡ true
    → digits 0 (c ∷ s) < 2 ^ 64
    → unsigned (c ∷ s) ≡ some (digits 0 (c ∷ s))
unfolding unsigned
unsigned-digits c s e h = in_range (is_hex_number c) (digits 0 (c ∷ s)) e h

stoull-digits : (w : List ℕ) → IsWord w → digits 0 w < 2 ^ 64 → stoull w ≡ some (digits 0 w)
unfolding stoull with_sign is_space is_hex_number
stoull-digits [] (ne, p) h = absurd (ne refl)
stoull-digits (c ∷ s) (ne, (e, p)) h =
    let gap : is_space c ≡ false = ground (arith, e) in
    let plus : (c == 43) ≡ false = ground (arith, e) in
    let minus : (c == 45) ≡ false = ground (arith, e) in
    rw (gap, plus, minus) (unsigned-digits c s e h)

-- What `to_string` prints is what `stoull` reads.
pub stoull-to_string : (n : ℕ) → n < 2 ^ 64 → stoull (to_string n) ≡ some n
stoull-to_string n h =
    let e = digits-decimal 20 n (omega (arith, h)) in
    stoull-digits (to_string n) (to_string-IsWord n) (omega (arith, e, h)) ∙ ap some e
