-- ===== src/RawEth/Checksum.antt =====
-- The checksum of the IP header in raw_eth/rxtx/common.h.
use systemish.Base.{ℕ, zero, suc, ◌+◌, ◌-◌, ◌/◌, ◌%◌, ◌^◌, ◌==◌, if◌then◌else◌, List, [], ◌∷◌}
use systemish.RawEth.Frame.{Ipv4Hdr, words, htons, ipv4_hdr_size, udp_hdr_size}

-- `(sum & 0xFFFF) + (sum >> 16)`
abbrev pub carry : ℕ → ℕ
carry sum = sum % 2 ^ 16 + sum / 2 ^ 16

-- The first loop: `sum` is an `unsigned long`, whose bit 31 is tested.
unfoldable pub add_words : List ℕ → ℕ → ℕ
add_words [] sum = sum
add_words (w ∷ ws) sum =
    let t = (sum + w) % 2 ^ 64 in add_words ws (if t / 2 ^ 31 % 2 == 1 then carry t else t)

-- The second loop, at most `fuel` turns.
unfoldable pub fold_carries : ℕ → ℕ → ℕ
fold_carries zero sum = sum
fold_carries (suc fuel) sum =
    let rest = fold_carries fuel (carry sum) in if sum / 2 ^ 16 == 0 then sum else rest

-- Five turns are enough for a sum of 64 bits. The result is converted to 16 bits.
unfoldable pub ip_checksum : Ipv4Hdr → ℕ
unfolding add_words fold_carries
ip_checksum h = (2 ^ 64 - 1 - fold_carries 5 (add_words (words h) 0)) % 2 ^ 16

-- `gen_ipv4_header`, less the checksum.
unfoldable pub set_fields : Ipv4Hdr → ℕ → ℕ → ℕ → ℕ → Ipv4Hdr
set_fields h src_ip dst_ip protocol data_size = record h {
  version = 4;
  ihl = 5;
  tos = 0;
  tot_len = htons (ipv4_hdr_size + udp_hdr_size + data_size);
  id = htons 0;
  frag_off = htons 0;
  ttl = 128;
  protocol = protocol;
  src_ip = src_ip;
  dst_ip = dst_ip;
}

-- The checksum of the header, written into it.
unfoldable pub set_check : Ipv4Hdr → Ipv4Hdr
set_check h = record h { check = ip_checksum h }

unfoldable pub gen_ipv4_header : Ipv4Hdr → ℕ → ℕ → ℕ → ℕ → Ipv4Hdr
gen_ipv4_header h src_ip dst_ip protocol data_size =
    set_check (set_fields h src_ip dst_ip protocol data_size)
