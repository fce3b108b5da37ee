-- ===== src/Bench/Checksums.antt =====
-- `main` of bench/crc/crcbench.c: the checksums of a counter, as signed numbers, added up.
use systemish.Base.{
  ℕ, zero, suc, ◌+◌, ◌-◌, ◌*◌, ◌/◌, ◌%◌, ◌^◌, ◌≡◌, refl, ap, arith, extend, for_below, sum_below,
}
use systemish.Bench.Buffers.{fastcrc, crc_of, fastcrc-crc_of, WordIsBytes}

abbrev pub crc_pkts : ℕ
crc_pkts = 32 * 1024 * 1024

-- The bytes of a `long long`, the lowest first, as the array `A` of one element holds them.
abbrev pub bytes_of : ℕ → ℕ → ℕ
bytes_of w k = w / 2 ^ (8 * k) % 256

-- `0xffffffffffffffffL + i`
abbrev pub counted : ℕ → ℕ
counted i = (2 ^ 64 - 1 + i) % 2 ^ 64

module _ (crc_word crc_byte : ℕ → ℕ → ℕ) where
  -- The sum after `n` rounds.
  unfoldable pub crc_loop : ℕ → ℕ
  crc_loop n =
      for_below n
        (λ i sum. (sum + extend (fastcrc crc_word crc_byte (bytes_of (counted i)) 8)) % 2 ^ 64) 0

  unfoldable pub main_crc : ℕ
  unfolding crc_loop
  main_crc = crc_loop crc_pkts

  -- After `n` rounds of crcbench.c the sum is that of the checksums byte by byte of the numbers
  -- counted up from the largest, taken as signed 32-bit numbers, modulo 2 ^ 64, if the instruction
  -- on a word does its four bytes.
  pub crc_loop-sum :
      (law : WordIsBytes crc_word crc_byte) (n : ℕ)
      → crc_loop n
        ≡ sum_below n (λ i. extend (crc_of crc_word crc_byte (bytes_of (counted i)) 8)) % 2 ^ 64
  unfolding crc_loop for_below sum_below
  crc_loop-sum law zero = refl
  crc_loop-sum law (suc n) = omega (
    arith,
    crc_loop-sum law n,
    ap extend (fastcrc-crc_of crc_word crc_byte (bytes_of (counted n)) (λ k. omega arith) law 8),
  )
