-- ===== src/RawEth/Verified.antt =====
-- The checksum that raw_eth/rxtx/common.h writes is the one that a receiver of IP accepts.
use systemish.Base.{
  false, ℕ, zero, suc, ◌+◌, ◌*◌, ◌/◌, ◌%◌, ◌^◌, ◌<◌, ◌≡◌, ◌↔◌, refl, arith, ◌∙◌, ◌==◌, inl, inr,
  Bool-cases, total, List, [], ◌∷◌,
}
use systemish.RawEth.Frame.{Ipv4Hdr, words, htons}
use systemish.RawEth.Checksum.{
  carry, add_words, fold_carries, ip_checksum, set_fields, set_check, gen_ipv4_header,
}

-- The sum of the words.
abbrev pub word_sum : List ℕ → ℕ
word_sum ws = total (λ w. w) ws

-- Bit 31 stays clear while the sum is small.
add_words-total :
    (ws : List ℕ) (sum : ℕ) → sum + word_sum ws < 2 ^ 31 → add_words ws sum ≡ sum + word_sum ws
unfolding add_words
add_words-total [] sum h = omega arith
add_words-total (w ∷ ws) sum h =
    rw (small, clear) (add_words-total ws (sum + w) (omega arith) ∙ omega arith)
  where
    small : (sum + w) % 2 ^ 64 ≡ sum + w
    small = omega arith

    clear : ((sum + w) / 2 ^ 31 % 2 == 1) ≡ false
    clear = ground arith

-- A turn takes away a multiple of 65535, and does not make a sum 0.
fold_carries-multiple :
    (fuel sum : ℕ)
    → (k : ℕ) × (fold_carries fuel sum + 65535 * k ≡ sum) × (0 < sum → 0 < fold_carries fuel sum)
unfolding fold_carries
fold_carries-multiple zero sum = (0, omega arith, λ h. h)
fold_carries-multiple (suc fuel) sum = elim (Bool-cases (sum / 2 ^ 16 == 0)) [
  | inl done ↦ rw done (0, omega arith, λ h. h)
  | inr more ↦
      let (k, e, positive) = fold_carries-multiple fuel (carry sum) in
      rw more (k + sum / 2 ^ 16, omega (arith, e), λ h. positive (omega arith))
]

fold_carries-done : (fuel sum : ℕ) → sum < 2 ^ 16 → fold_carries fuel sum ≡ sum
unfolding fold_carries
fold_carries-done zero sum h = refl
fold_carries-done (suc fuel) sum h = ground (arith, h)

fold_carries-step :
    (fuel sum : ℕ) → fold_carries fuel (carry sum) < 2 ^ 16 → fold_carries (suc fuel) sum < 2 ^ 16
unfolding fold_carries
fold_carries-step fuel sum h = elim (Bool-cases (sum / 2 ^ 16 == 0)) [
  | inl done ↦ ground (arith, done)
  | inr more ↦ ground (arith, more, h)
]

-- Five turns end the second loop, from every sum of 64 bits.
pub fold_carries-ends : (sum : ℕ) → sum < 2 ^ 64 → fold_carries 5 sum < 2 ^ 16
unfolding fold_carries
fold_carries-ends sum h = fold_carries-step 4 sum (
    fold_carries-step 3 (carry sum) (
      fold_carries-step 2 (carry (carry sum)) (
        fold_carries-step 1 (carry (carry (carry sum)))
          (fold_carries-step 0 (carry (carry (carry (carry sum)))) (omega arith)))))

-- The values of a header, less its checksum, fit in their fields.
pub record IsHeader (h : Ipv4Hdr) : Type 0 where
  pub ihl_fits : h.ihl < 2 ^ 4
  pub version_fits : h.version < 2 ^ 4
  pub tos_fits : h.tos < 2 ^ 8
  pub tot_len_fits : h.tot_len < 2 ^ 16
  pub id_fits : h.id < 2 ^ 16
  pub frag_off_fits : h.frag_off < 2 ^ 16
  pub ttl_fits : h.ttl < 2 ^ 8
  pub protocol_fits : h.protocol < 2 ^ 8
  pub check_fits : h.check < 2 ^ 16
  pub src_ip_fits : h.src_ip < 2 ^ 32
  pub dst_ip_fits : h.dst_ip < 2 ^ 32

words-small : (h : Ipv4Hdr) → IsHeader h → word_sum (words h) < 2 ^ 20
unfolding words
words-small h is = omega arith

-- The checksum of a header that is not all zeros, its own field included, is 0 just if its words
-- add up to a multiple of 65535.
pub ip_checksum_iff :
    (h : Ipv4Hdr)
    → IsHeader h
    → 0 < word_sum (words h)
    → (ip_checksum h ≡ 0) ↔ (word_sum (words h) % 65535 ≡ 0)
unfolding ip_checksum
ip_checksum_iff h is some_bits =
    let (k, e, positive) = fold_carries-multiple 5 sum in
    (
      (λ zero_sum. omega (arith, e, plain, positive (omega (arith, plain)), low, zero_sum)),
      (λ whole. omega (arith, e, plain, positive (omega (arith, plain)), low, whole)),
    )
  where
    sum : ℕ
    sum = add_words (words h) 0

    plain : sum ≡ word_sum (words h)
    plain = add_words-total (words h) 0 (omega (arith, words-small h is)) ∙ omega arith

    low : fold_carries 5 sum < 2 ^ 16
    low = fold_carries-ends sum (omega (arith, plain, words-small h is))

htons-small : (x : ℕ) → htons x < 2 ^ 16
unfolding htons
htons-small x = omega arith

word_sum-check :
    (h : Ipv4Hdr) (check : ℕ)
    → h.check ≡ 0
    → word_sum (words (record h { check = check })) ≡ word_sum (words h) + check
unfolding words
word_sum-check h check e = omega (arith, e)

-- A checksum over a header whose checksum field is 0 makes the header's words add up to a multiple
-- of 65535.
set_check-multiple :
    (h : Ipv4Hdr)
    → IsHeader h
    → h.check ≡ 0
    → 0 < word_sum (words h)
    → word_sum (words (set_check h)) % 65535 ≡ 0
unfolding ip_checksum set_check
set_check-multiple h is clear some_bits =
    let (k, e, positive) = fold_carries-multiple 5 sum in
    omega (
      arith,
      e,
      plain,
      positive (omega (arith, plain)),
      low,
      word_sum-check h (ip_checksum h) clear,
    )
  where
    sum : ℕ
    sum = add_words (words h) 0

    plain : sum ≡ word_sum (words h)
    plain = add_words-total (words h) 0 (omega (arith, words-small h is)) ∙ omega arith

    low : fold_carries 5 sum < 2 ^ 16
    low = fold_carries-ends sum (omega (arith, plain, words-small h is))

set_fields-IsHeader :
    (h : Ipv4Hdr) (src_ip dst_ip protocol data_size : ℕ)
    → h.check ≡ 0
    → src_ip < 2 ^ 32
    → dst_ip < 2 ^ 32
    → protocol < 2 ^ 8
    → IsHeader (set_fields h src_ip dst_ip protocol data_size)
unfolding set_fields
set_fields-IsHeader h src_ip dst_ip protocol data_size clear src dst proto = record {
  ihl_fits = omega arith;
  version_fits = omega arith;
  tos_fits = omega arith;
  tot_len_fits = htons-small (20 + 8 + data_size);
  id_fits = htons-small 0;
  frag_off_fits = htons-small 0;
  ttl_fits = omega arith;
  protocol_fits = proto;
  check_fits = omega (arith, clear);
  src_ip_fits = src;
  dst_ip_fits = dst;
}

set_fields-some :
    (h : Ipv4Hdr) (src_ip dst_ip protocol data_size : ℕ)
    → 0 < word_sum (words (set_fields h src_ip dst_ip protocol data_size))
unfolding set_fields words
set_fields-some h src_ip dst_ip protocol data_size = omega arith

-- What a receiver of IP tests (RFC 1071): the ten words of 16 bits in the header, with the checksum
-- that came with it, add up to 65535 in ones' complement, hence to a positive multiple of 65535.
-- The order of the bytes in a word does not matter for that.
abbrev pub header_sum : Ipv4Hdr → ℕ
header_sum h =
    h.ihl
    + 16 * h.version
    + 256 * h.tos
    + h.tot_len
    + h.id
    + h.frag_off
    + h.ttl
    + 256 * h.protocol
    + h.check
    + h.src_ip % 65536
    + h.src_ip / 65536
    + h.dst_ip % 65536
    + h.dst_ip / 65536

pub record IsAccepted (h : Ipv4Hdr) : Type 0 where
  pub some_bits : 0 < header_sum h
  pub whole : header_sum h % 65535 ≡ 0

word_sum-header_sum : (h : Ipv4Hdr) → word_sum (words h) ≡ header_sum h
unfolding words
word_sum-header_sum h = omega arith

set_check-IsAccepted :
    (h : Ipv4Hdr) → IsHeader h → h.check ≡ 0 → 0 < word_sum (words h) → IsAccepted (set_check h)
set_check-IsAccepted h is clear some_bits = record {
  some_bits = omega (arith, sums, positive);
  whole = omega (arith, sums, set_check-multiple h is clear some_bits);
}
  where
    sums : word_sum (words (set_check h)) ≡ header_sum (set_check h)
    sums = word_sum-header_sum (set_check h)

    positive : 0 < word_sum (words (set_check h))
    positive = unfold set_check in omega (arith, some_bits, word_sum-check h (ip_checksum h) clear)

-- A receiver accepts the header that `gen_ipv4_header` fills, if the field of the checksum was 0
-- before.
pub gen_ipv4_header-IsAccepted :
    (h : Ipv4Hdr) (src_ip dst_ip protocol data_size : ℕ)
    → h.check ≡ 0
    → src_ip < 2 ^ 32
    → dst_ip < 2 ^ 32
    → protocol < 2 ^ 8
    → IsAccepted (gen_ipv4_header h src_ip dst_ip protocol data_size)
unfolding gen_ipv4_header
gen_ipv4_header-IsAccepted h src_ip dst_ip protocol data_size clear src dst proto =
    set_check-IsAccepted (set_fields h src_ip dst_ip protocol data_size)
      (set_fields-IsHeader h src_ip dst_ip protocol data_size clear src dst proto)
      (unfold set_fields in clear) (set_fields-some h src_ip dst_ip protocol data_size)
