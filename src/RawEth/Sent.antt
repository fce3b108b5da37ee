-- ===== src/RawEth/Sent.antt =====
-- The packets that raw_eth/rxtx/sender.cc posts are IP packets that a receiver accepts.
use mathlib.Core.Path.{subst}
use systemish.Base.{
  sym, ℕ, ◌^◌, ◌<◌, ◌≡◌, refl, arith, List, [], ◌∷◌, All, Option, some, ◌==◌, is_negative,
  Bool-cases, inl, inr,
}
use Prim.Native.String.{String}
use systemish.RawEth.Frame.{Packet, Ipv4Hdr, ip_hdr_protocol, data_size}
use systemish.RawEth.Verified.{IsAccepted, gen_ipv4_header-IsAccepted}
use systemish.RawEth.Sender.{
  filled, Sender, Turn, direct, send_loop, main_sender, format_packet, ip_from_str, zero_packet,
  src_ip_str, dst_ip_str,
}
use systemish.RawEth.Sequence.{next_turn, if_posted}

abbrev HasHeader : Ipv4Hdr → Packet → Type 0
HasHeader h p = p.ipv4_hdr ≡ h

-- The loop leaves the IP header alone.
send_loop-HasHeader :
    (turns : List Turn) (s : Sender) → All (HasHeader s.packet.ipv4_hdr) (send_loop turns s)
unfolding send_loop direct
send_loop-HasHeader [] s = tt
send_loop-HasHeader (t ∷ ts) s = elim (Bool-cases (is_negative t.post_ret)) [
  | inl failed ↦ rw failed tt
  | inr goes_on ↦ rw goes_on (
      if_posted (HasHeader s.packet.ipv4_hdr) (t.post_ret == 0) (is_negative t.poll_ret)
        (direct s).packet (send_loop ts (next_turn s)) refl (send_loop-HasHeader ts (next_turn s)))
]

-- A receiver accepts the IP header.
abbrev pub IsVerified : Packet → Type 0
IsVerified p = IsAccepted p.ipv4_hdr

All-map :
    {A : Type 0} (P Q : A → Type 0) (xs : List A) → ((x : A) → P x → Q x) → All P xs → All Q xs
All-map P Q [] f h = tt
All-map P Q (x ∷ xs) f (h, hs) = (f x h, All-map P Q xs f hs)

-- If the two addresses are read, the sender runs, and every packet that it posts has an IP header
-- whose ten words of 16 bits, with its checksum, add up to a positive multiple of 65535, as a
-- receiver of IP wants it.
pub main_sender-IsVerified :
    (inet_pton : String → Option ℕ) (src_ip dst_ip seed : ℕ) (turns : List Turn)
    → inet_pton src_ip_str ≡ some src_ip
    → inet_pton dst_ip_str ≡ some dst_ip
    → src_ip < 2 ^ 32
    → dst_ip < 2 ^ 32
    → (sent : List Packet) × (main_sender inet_pton seed turns ≡ some sent) × All IsVerified sent
unfolding main_sender format_packet ip_from_str
main_sender-IsVerified inet_pton src_ip dst_ip seed turns src dst src_fits dst_fits =
    rw (src, dst)
      (
        send_loop turns first,
        refl,
        All-map (HasHeader first.packet.ipv4_hdr) IsVerified (send_loop turns first)
            (λ p h. subst IsAccepted (sym h) verified) (send_loop-HasHeader turns first),
      )
  where
    first : Sender
    first = record {
      packet = filled zero_packet src_ip dst_ip;
      seq_num = λ i. 0;
      nb_tx = 0;
      seed = seed;
    }

    verified : IsAccepted first.packet.ipv4_hdr
    verified =
        unfold filled in
        gen_ipv4_header-IsAccepted zero_packet.ipv4_hdr src_ip dst_ip ip_hdr_protocol data_size refl
          src_fits dst_fits (omega arith)
