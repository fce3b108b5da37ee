-- ===== src/RawEth/Frame.antt =====
-- The constants and the headers of raw_eth/rxtx/common.h.
use systemish.Base.{ℕ, ◌+◌, ◌*◌, ◌/◌, ◌%◌, ◌^◌, List, [], ◌∷◌}

-- `kDataSize`, `kRecvBufSize`, `kRQDepth`
abbrev pub data_size : ℕ
data_size = 32

abbrev pub recv_buf_size : ℕ
recv_buf_size = 1500

abbrev pub rq_depth : ℕ
rq_depth = 512

-- `kIPEtherType` and `kIPHdrProtocol`
abbrev pub ip_ether_type : ℕ
ip_ether_type = 0x800

abbrev pub ip_hdr_protocol : ℕ
ip_hdr_protocol = 0x11

-- `kReceiverThreads` and `kBaseDstPort`
abbrev pub receiver_threads : ℕ
receiver_threads = 2

abbrev pub base_dst_port : ℕ
base_dst_port = 3185

-- `kDstMAC` and `kSrcMAC`
abbrev pub dst_mac_addr : List ℕ
dst_mac_addr = 0xec ∷ 0x0d ∷ 0x9a ∷ 0x7b ∷ 0xd7 ∷ 0xd6 ∷ []

abbrev pub src_mac_addr : List ℕ
src_mac_addr = 0xec ∷ 0x0d ∷ 0x9a ∷ 0x7b ∷ 0xd7 ∷ 0xe6 ∷ []

-- `eth_hdr_t`
pub record EthHdr : Type 0 where
  pub dst_mac : List ℕ
  pub src_mac : List ℕ
  pub eth_type : ℕ

-- `ipv4_hdr_t`
pub record Ipv4Hdr : Type 0 where
  pub ihl : ℕ
  pub version : ℕ
  pub tos : ℕ
  pub tot_len : ℕ
  pub id : ℕ
  pub frag_off : ℕ
  pub ttl : ℕ
  pub protocol : ℕ
  pub check : ℕ
  pub src_ip : ℕ
  pub dst_ip : ℕ

-- `udp_hdr_t`
pub record UdpHdr : Type 0 where
  pub src_port : ℕ
  pub dst_port : ℕ
  pub len : ℕ
  pub sum : ℕ

-- `data_hdr_t`, less its padding
pub record DataHdr : Type 0 where
  pub receiver_thread : ℕ
  pub seq_num : ℕ

-- The bytes of a packet, as its headers.
pub record Packet : Type 0 where
  pub eth_hdr : EthHdr
  pub ipv4_hdr : Ipv4Hdr
  pub udp_hdr : UdpHdr
  pub data_hdr : DataHdr

abbrev pub ipv4_hdr_size : ℕ
ipv4_hdr_size = 20

abbrev pub udp_hdr_size : ℕ
udp_hdr_size = 8

-- `htons` of a value that is converted to 16 bits
unfoldable pub htons : ℕ → ℕ
htons x = x % 2 ^ 8 * 2 ^ 8 + x / 2 ^ 8 % 2 ^ 8

-- The header as ten words of 16 bits.
unfoldable pub words : Ipv4Hdr → List ℕ
words h =
    (h.ihl + 2 ^ 4 * h.version + 2 ^ 8 * h.tos)
    ∷ h.tot_len
    ∷ h.id
    ∷ h.frag_off
    ∷ (h.ttl + 2 ^ 8 * h.protocol)
    ∷ h.check
    ∷ (h.src_ip % 2 ^ 16)
    ∷ (h.src_ip / 2 ^ 16)
    ∷ (h.dst_ip % 2 ^ 16)
    ∷ (h.dst_ip / 2 ^ 16)
    ∷ []

unfoldable pub gen_eth_header : EthHdr → List ℕ → List ℕ → ℕ → EthHdr
gen_eth_header h src_mac dst_mac eth_type = record {
  dst_mac = dst_mac;
  src_mac = src_mac;
  eth_type = htons eth_type;
}

unfoldable pub gen_udp_header : UdpHdr → ℕ → ℕ → ℕ → UdpHdr
gen_udp_header h src_port dst_port data_size = record {
  src_port = htons src_port;
  dst_port = htons dst_port;
  len = htons (udp_hdr_size + data_size);
  sum = 0;
}
