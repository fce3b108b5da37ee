-- ===== src/RawEth/Sender.antt =====
-- raw_eth/rxtx/rand.h and sender.cc.
use systemish.Base.{
  ◌>>=◌, ℕ, ◌+◌, ◌*◌, ◌/◌, ◌%◌, ◌^◌, List, [], ◌∷◌, Option, some, update, is_negative, ◌==◌,
  if◌then◌else◌,
}
use Prim.Native.String.{String}
use systemish.RawEth.Frame.{
  Packet, gen_eth_header, gen_udp_header, htons, src_mac_addr, dst_mac_addr, ip_ether_type,
  ip_hdr_protocol, data_size, base_dst_port, receiver_threads,
}
use systemish.RawEth.Checksum.{gen_ipv4_header}

-- `kDstIP` and `kSrcIP`
abbrev pub dst_ip_str : String
dst_ip_str = "192.168.1.250"

abbrev pub src_ip_str : String
src_ip_str = "192.168.1.251"

-- `FastRand::next_u32`: the new seed and the number.
unfoldable pub next_u32 : ℕ → ℕ × ℕ
next_u32 seed = let seed' : ℕ = (seed * 1103515245 + 12345) % 2 ^ 64 in (seed', seed' / 2 ^ 32)

-- A packet of zeros.
abbrev pub zero_packet : Packet
zero_packet = record {
  eth_hdr = record {
    dst_mac = 0 ∷ 0 ∷ 0 ∷ 0 ∷ 0 ∷ 0 ∷ [];
    src_mac = 0 ∷ 0 ∷ 0 ∷ 0 ∷ 0 ∷ 0 ∷ [];
    eth_type = 0;
  };
  ipv4_hdr = record {
    ihl = 0;
    version = 0;
    tos = 0;
    tot_len = 0;
    id = 0;
    frag_off = 0;
    ttl = 0;
    protocol = 0;
    check = 0;
    src_ip = 0;
    dst_ip = 0;
  };
  udp_hdr = record { src_port = 0; dst_port = 0; len = 0; sum = 0 };
  data_hdr = record { receiver_thread = 0; seq_num = 0 };
}

-- `format_packet` once the addresses are read.
unfoldable pub filled : Packet → ℕ → ℕ → Packet
filled p src_ip dst_ip = record {
  eth_hdr = gen_eth_header p.eth_hdr src_mac_addr dst_mac_addr ip_ether_type;
  ipv4_hdr = gen_ipv4_header p.ipv4_hdr src_ip dst_ip ip_hdr_protocol data_size;
  udp_hdr = gen_udp_header p.udp_hdr 0xffff base_dst_port data_size;
  data_hdr = p.data_hdr;
}

module _ (inet_pton : String → Option ℕ) where
  -- None is a failed assertion.
  unfoldable pub ip_from_str : String → Option ℕ
  ip_from_str ip = inet_pton ip

  unfoldable pub format_packet : Packet → Option Packet
  unfolding ip_from_str
  format_packet p = do
    src_ip ← ip_from_str src_ip_str
    dst_ip ← ip_from_str dst_ip_str
    some (filled p src_ip dst_ip)

-- The locals of `main`.
pub record Sender : Type 0 where
  pub packet : Packet
  pub seq_num : ℕ → ℕ
  pub nb_tx : ℕ
  pub seed : ℕ

-- What `ibv_post_send` and `ibv_poll_cq` return in a turn of the loop, as patterns of 32 bits. A call
-- of `ibv_post_send` has posted the packet if it returns 0; otherwise it returns the number of an
-- error, and has posted nothing.
pub record Turn : Type 0 where
  pub post_ret : ℕ
  pub poll_ret : ℕ

-- The packet that a turn posts, and the locals then.
unfoldable pub direct : Sender → Sender
unfolding next_u32
direct s =
    let (seed, number) = next_u32 s.seed in
    let dst_thread_idx : ℕ = number % receiver_threads in
    record {
      packet = record s.packet {
        udp_hdr = record (s.packet.udp_hdr) { dst_port = htons (base_dst_port + dst_thread_idx) };
        data_hdr = record { receiver_thread = dst_thread_idx; seq_num = s.seq_num dst_thread_idx };
      };
      seq_num = update s.seq_num dst_thread_idx ((s.seq_num dst_thread_idx + 1) % 2 ^ 64);
      nb_tx = s.nb_tx;
      seed = seed;
    }

-- The loop: the packets that are posted, for the turns that are given. The code leaves it on a
-- negative result only, so that it goes on after the positive number of an error.
unfoldable pub send_loop : List Turn → Sender → List Packet
unfolding direct
send_loop [] s = []
send_loop (t ∷ ts) s =
    let s' = direct s in
    let rest = send_loop ts (record s' { nb_tx = (s'.nb_tx + 1) % 2 ^ 64 }) in
    let later = if is_negative t.poll_ret then [] else rest in
    if is_negative t.post_ret then [] else if t.post_ret == 0 then s'.packet ∷ later else later

unfoldable pub main_sender : (String → Option ℕ) → ℕ → List Turn → Option (List Packet)
unfolding format_packet send_loop
main_sender inet_pton seed turns = do
  packet ← format_packet inet_pton zero_packet
  some (send_loop turns (record { packet = packet; seq_num = λ i. 0; nb_tx = 0; seed = seed }))
