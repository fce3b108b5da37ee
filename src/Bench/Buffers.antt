-- ===== src/Bench/Buffers.antt =====
-- bench/strlen/strlenbench.c and bench/crc/crcbench.c.
use systemish.Base.{
  ℕ, zero, suc, ◌+◌, ◌-◌, ◌*◌, ◌/◌, ◌%◌, ◌^◌, ◌≤◌, ◌<◌, ◌≡◌, refl, ap, ◌∙◌, arith, update,
  for_below, fill, fill-below, sum_below, Option, none, some, ◌==◌, if◌then◌else◌, Bool-cases,
  ==_iff, inl, inr, true, false,
}
use native.Mathlib.Nat.{add-zero, add-suc}

abbrev pub num_chars : ℕ
num_chars = 16

abbrev pub num_pkts : ℕ
num_pkts = 128 * 1024 * 1024

-- `strlen` from `i`, with the characters of the array that are left: `none` if there is no zero.
unfoldable pub strlen_from : (ℕ → ℕ) → ℕ → ℕ → Option ℕ
strlen_from a i zero = none
strlen_from a i (suc n) = let rest = strlen_from a (suc i) n in if a i == 0 then some i else rest

unfoldable pub strlen : (ℕ → ℕ) → Option ℕ
strlen a = strlen_from a 0 num_chars

pub record State : Type 0 where
  pub a : ℕ → ℕ
  pub sum : ℕ  -- a `long long`

-- One round; `none` is a read past the end of the array. `& NUM_CHARS_` is a mask of four ones.
unfoldable pub round : ℕ → State → Option State
round i s =
    let index = i % num_chars in
    let a = update s.a index 0 in
    elim (strlen a) [
      | none ↦ none
      | some n ↦ some (record { a = update a index 1; sum = (s.sum + n) % 2 ^ 64 })
    ]

unfoldable pub start : (ℕ → ℕ) → State
start garbage = record { a = update (fill num_chars (λ j. 1) garbage) (num_chars - 1) 0; sum = 0 }

unfoldable pub rounds : (ℕ → ℕ) → ℕ → Option State
rounds garbage n =
    for_below n (λ i s. elim s [ none ↦ none | some t ↦ round i t ]) (some (start garbage))

-- The array between rounds: ones, but for the end before the first full turn.
record Between (n : ℕ) (s : State) : Type 0 where
  ones : (j : ℕ) → j < 15 → s.a j ≡ 1
  summed : s.sum ≡ sum_below n (λ i. i % 16) % 2 ^ 64

strlen_from-first :
    (a : ℕ → ℕ) (k i n : ℕ)
    → ((j : ℕ) → j < k → a j ≡ 1)
    → a k ≡ 0
    → i ≤ k
    → k < i + n
    → strlen_from a i n ≡ some k
unfolding strlen_from
strlen_from-first a k i zero ones end lo hi = absurd (omega arith)
strlen_from-first a k i (suc n) ones end lo hi = elim (Bool-cases (i == k)) [
  | inl at ↦
      let e = (==_iff i k).0 at in
      let z : (a i == 0) ≡ true = ground (arith, ap a e, end) in rw z (ap some e)
  | inr off ↦
      let z : (a i == 0) ≡ false = ground (arith, ones i (ground (arith, off))) in
      rw z (strlen_from-first a k (suc i) n ones end (ground (arith, off)) (omega arith))
]

round-Between :
    (n : ℕ) (s : State) → Between n s → (t : State) × (round n s ≡ some t) × Between (suc n) t
unfolding round sum_below
round-Between n s b = (
  record { a = update (update s.a (n % 16) 0) (n % 16) 1; sum = (s.sum + n % 16) % 2 ^ 64 },
  rw (len, round),
  record { ones = λ j h. ground (arith, b.ones j h); summed = omega (arith, b.summed) },
)
  where
    kept : (j : ℕ) → j < n % 16 → update s.a (n % 16) 0 j ≡ 1
    kept j h = ground (arith, b.ones j (omega arith))

    len : strlen (update s.a (n % 16) 0) ≡ some (n % 16)
    len =
        unfold strlen in
        strlen_from-first (update s.a (n % 16) 0) (n % 16) 0 16 kept (ground arith) (omega arith)
          (omega arith)

rounds-Between : (garbage : ℕ → ℕ) (n : ℕ) → (t : State) × (rounds garbage n ≡ some t) × Between n t
unfolding rounds for_below
rounds-Between garbage zero = (
  start garbage,
  refl,
  record {
    ones = λ j h. unfold start in ground (arith, fill-below (λ j. 1) garbage 16 j);
    summed = unfold start sum_below in refl;
  },
)
rounds-Between garbage (suc n) =
    let (s, e, b) = rounds-Between garbage n in
    let (t, e', b') = round-Between n s b in (t, rw e e', b')

-- No call of `strlen` in strlenbench.c reads past its array, and the result in round `i` is
-- `i % 16`, so after `n` rounds the sum is that of these.
pub rounds-sum :
    (garbage : ℕ → ℕ) (n : ℕ)
    → (t : State) × (rounds garbage n ≡ some t) × (t.sum ≡ sum_below n (λ i. i % 16) % 2 ^ 64)
rounds-sum garbage n = let (t, e, b) = rounds-Between garbage n in (t, e, b.summed)

-- crcbench.c, over the two forms of the CRC32 instruction of the processor, on a word and on a
-- byte. Memory is read a byte at a time; a word is four bytes, the lowest first.
module _ (crc_word crc_byte : ℕ → ℕ → ℕ) where
  unfoldable pub word_at : (ℕ → ℕ) → ℕ → ℕ
  word_at str k =
      str (4 * k) + 256 * str (4 * k + 1) + 65536 * str (4 * k + 2) + 16777216 * str (4 * k + 3)

  unfoldable pub fastcrc : (ℕ → ℕ) → ℕ → ℕ
  unfolding word_at
  fastcrc str len =
      let q = len / 4 in
      let r = len % 4 in
      let crc = for_below q (λ k crc. crc_word crc (word_at str k)) 0 in
      for_below r (λ k crc. crc_byte crc (str (4 * q + k))) crc

  -- What the processor documents: the instruction on a word does four bytes, the lowest first.
  abbrev pub WordIsBytes : Type 0
  WordIsBytes =
      (crc b0 b1 b2 b3 : ℕ)
      → b0 < 256
      → b1 < 256
      → b2 < 256
      → b3 < 256
      → crc_word crc (b0 + 256 * b1 + 65536 * b2 + 16777216 * b3)
        ≡ crc_byte (crc_byte (crc_byte (crc_byte crc b0) b1) b2) b3

  -- The checksum a byte at a time.
  unfoldable pub crc_of : (ℕ → ℕ) → ℕ → ℕ
  crc_of str len = for_below len (λ k crc. crc_byte crc (str k)) 0

  module _ (str : ℕ → ℕ) (bytes : (k : ℕ) → str k < 256) (law : WordIsBytes) where
    tail-eq :
        (m r : ℕ)
        → for_below r (λ k crc. crc_byte crc (str (m + k))) (crc_of str m) ≡ crc_of str (m + r)
    unfolding for_below crc_of
    tail-eq m zero = rw add-zero
    tail-eq m (suc r) = rw add-suc (ap (λ c. crc_byte c (str (m + r))) (tail-eq m r))

    four :
        (q : ℕ) (c : ℕ)
        → crc_byte
            (crc_byte (crc_byte (crc_byte c (str (4 * q))) (str (4 * q + 1))) (str (4 * q + 2)))
            (str (4 * q + 3))
          ≡ for_below 4 (λ k crc. crc_byte crc (str (4 * q + k))) c
    unfolding for_below
    four q c = simp add-zero

    words-suc :
        (q : ℕ)
        → for_below (suc q) (λ k crc. crc_word crc (word_at str k)) 0
          ≡ crc_word (for_below q (λ k crc. crc_word crc (word_at str k)) 0) (word_at str q)
    unfolding for_below
    words-suc q = refl

    words-eq : (q : ℕ) → for_below q (λ k crc. crc_word crc (word_at str k)) 0 ≡ crc_of str (4 * q)
    words-eq zero = unfold for_below crc_of in refl
    words-eq (suc q) =
        words-suc q
        ∙ ap (λ c. crc_word c (word_at str q)) (words-eq q)
        ∙ unfold word_at in
          law (crc_of str (4 * q)) _ _ _ _ (bytes _) (bytes _) (bytes _) (bytes _)
          ∙ four q (crc_of str (4 * q))
          ∙ tail-eq (4 * q) 4
          ∙ ap (crc_of str) (omega arith)

    -- `fastcrc`, a word at a time and then a byte at a time, is the checksum byte by byte, for
    -- every length.
    pub fastcrc-crc_of : (len : ℕ) → fastcrc str len ≡ crc_of str len
    unfolding fastcrc
    fastcrc-crc_of len =
        rw (words-eq (len / 4)) (tail-eq (4 * (len / 4)) (len % 4) ∙ ap (crc_of str) (omega arith))
