-- ===== src/Examples/RawEth.antt =====
-- Runs of raw_eth/rxtx: a sender of four packets, and the first receiver thread.
use systemish.RawEth.Inet.{
  hex_digit, to_hex, read_mac-mac_to_string, mac_loop, read_mac, mac_to_string,
}
use systemish.RawEth.Verified.{ip_checksum_iff, word_sum}
use systemish.RawEth.Checksum.{ip_checksum}
use systemish.RawEth.Fifo.{fifo_run}
use systemish.RawEth.Sent.{main_sender-IsVerified, IsVerified}
use systemish.RawEth.Delivery.{run-send_loop, IsArrival, SteersLaw}
use systemish.RawEth.Sequence.{next_turn, send_loop-IsCounting, seq_nums, IsCounting}
use systemish.RawEth.Receiver.{
  start, poll, run, port_of, arrive, handle, Receiver, Event, install_flow_rule, FlowRule,
}
use systemish.RawEth.Sender.{next_u32, direct, zero_packet, main_sender, send_loop, Sender, Turn}
use systemish.RawEth.Frame.{words, Ipv4Hdr, rq_depth, htons, Packet}
use systemish.Base.{
  inl, ◌%◌, ◌↔◌, ℕ, ◌<◌, ◌≡◌, refl, arith, List, [], ◌∷◌, All, Option, some, none, Bool, ◌==◌,
  ==_iff,
}
use Prim.Native.String.{String}

abbrev addresses : String → Option ℕ
addresses s = some 0xfb01a8c0

abbrev turn : Turn
turn = record { post_ret = 0; poll_ret = 0 }

abbrev turns : List Turn
turns = turn ∷ turn ∷ turn ∷ turn ∷ []

main_sender-IsVerified_example :
    (sent : List Packet) × (main_sender addresses 1 turns ≡ some sent) × All IsVerified sent
main_sender-IsVerified_example =
    main_sender-IsVerified addresses 0xfb01a8c0 0xfb01a8c0 1 turns refl refl (omega arith)
      (omega arith)

abbrev sender : Sender
sender = record { packet = zero_packet; seq_num = λ i. 0; nb_tx = 0; seed = 1 }

send_loop-IsCounting_example : IsCounting 0 (seq_nums 1 (send_loop turns sender))
send_loop-IsCounting_example =
    send_loop-IsCounting turns sender 1 (inl refl, (inl refl, (inl refl, (inl refl, tt))))

seq_nums_test : seq_nums 0 (send_loop turns sender) ≡ 0 ∷ 1 ∷ 2 ∷ 3 ∷ []
unfolding send_loop direct next_u32
seq_nums_test = refl

-- A device that compares the ports.
abbrev steers : FlowRule → Packet → Bool
steers rule p = p.udp_hdr.dst_port == rule.dst_port

steers-SteersLaw : SteersLaw steers
steers-SteersLaw rule p full e = (==_iff p.udp_hdr.dst_port rule.dst_port).0 e

-- The first packet arrives and is polled.
abbrev packet : Packet
packet = (direct sender).packet

abbrev events : List Event
events = arrive packet ∷ poll ∷ []

arrivals : All (IsArrival steers 0 (send_loop turns sender)) events
unfolding send_loop direct next_u32 install_flow_rule port_of htons
arrivals = (([], send_loop (turn ∷ turn ∷ turn ∷ []) (next_turn sender), refl, refl), (tt, tt))

run-send_loop_example :
    (t : Receiver) × (run 4096 0 events (start 4096 (λ a. zero_packet)) ≡ some t)
    × (t.printed ≡ (fifo_run events (record { pending = []; taken = [] })).taken)
    × (t.ring_head < rq_depth)
run-send_loop_example =
    run-send_loop steers steers-SteersLaw 4096 0 (λ a. zero_packet) turns sender events
      (omega arith) arrivals

-- A packet for another thread ends the run.
abbrev astray : Packet
astray = record packet { data_hdr = record { receiver_thread = 1; seq_num = 0 } }

handle_test :
    handle 4096 0
      (record { memory = λ a. astray; posted = []; completed = []; ring_head = 0; printed = [] })
    ≡ none
unfolding handle
handle_test = refl

fifo_run_test : (fifo_run events (record { pending = []; taken = [] })).taken ≡ packet ∷ []
fifo_run_test = refl

-- A header with the protocol version alone.
abbrev header : Ipv4Hdr
header = record zero_packet.ipv4_hdr { version = 4 }

ip_checksum_iff_example : (ip_checksum header ≡ 0) ↔ (word_sum (words header) % 65535 ≡ 0)
ip_checksum_iff_example =
    ip_checksum_iff header
      (record {
        ihl_fits = omega arith;
        version_fits = omega arith;
        tos_fits = omega arith;
        tot_len_fits = omega arith;
        id_fits = omega arith;
        frag_off_fits = omega arith;
        ttl_fits = omega arith;
        protocol_fits = omega arith;
        check_fits = omega arith;
        src_ip_fits = omega arith;
        dst_ip_fits = omega arith;
      })
      (unfold words in omega arith)

read_mac-mac_to_string_example :
    read_mac 0 (mac_to_string (0xfe ∷ 0xd5 ∷ 0xa ∷ 0x32 ∷ 0x11 ∷ 0xff ∷ []))
    ≡ 0xfe ∷ 0xd5 ∷ 0xa ∷ 0x32 ∷ 0x11 ∷ 0xff ∷ []
read_mac-mac_to_string_example =
    read_mac-mac_to_string 0xfe (0xd5 ∷ 0xa ∷ 0x32 ∷ 0x11 ∷ 0xff ∷ []) refl
      (omega arith, (omega arith, (omega arith, (omega arith, (omega arith, (omega arith, tt))))))

-- "1:a:0:0:0:0"
mac_to_string_test :
    mac_to_string (1 ∷ 10 ∷ 0 ∷ 0 ∷ 0 ∷ 0 ∷ [])
    ≡ 49 ∷ 58 ∷ 97 ∷ 58 ∷ 48 ∷ 58 ∷ 48 ∷ 58 ∷ 48 ∷ 58 ∷ 48 ∷ []
unfolding mac_to_string mac_loop to_hex hex_digit
mac_to_string_test = refl
