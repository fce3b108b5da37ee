-- ===== src/RawEth/Delivery.antt =====
-- From raw_eth/rxtx/sender.cc to the threads of receiver.cc.
use systemish.Base.{
  ℕ, ◌+◌, ◌%◌, ◌^◌, ◌<◌, ◌≡◌, refl, ◌∙◌, sym, arith, List, [], ◌∷◌, ◌++◌, All, All-after, some,
  Bool, true,
}
use mathlib.Core.Path.{subst}
use systemish.RawEth.Frame.{Packet, htons, base_dst_port, receiver_threads, rq_depth}
use systemish.RawEth.Sender.{Sender, Turn, send_loop}
use systemish.RawEth.Sequence.{IsDirected, send_loop-IsDirected}
use systemish.RawEth.Receiver.{
  Receiver, FlowRule, Event, arrive, poll, port_of, install_flow_rule, start, run,
}
use systemish.RawEth.Fifo.{IsFor, IsForThread, fifo_run, run-fifo_run}

-- `htons` loses nothing of 16 bits.
htons-injective : (x y : ℕ) → x < 2 ^ 16 → y < 2 ^ 16 → htons x ≡ htons y → x ≡ y
unfolding htons
htons-injective x y h k e = omega arith

-- A rule whose mask is full steers to its queue the packets whose port is that of the rule.
abbrev pub SteersLaw : (FlowRule → Packet → Bool) → Type 0
SteersLaw steers =
    (rule : FlowRule) (p : Packet)
    → rule.mask ≡ 0xffff
    → steers rule p ≡ true
    → p.udp_hdr.dst_port ≡ rule.dst_port

-- What the rule of a thread steers to it, of the packets that are directed, is for the thread.
directed-IsFor :
    (steers : FlowRule → Packet → Bool) (law : SteersLaw steers) (thread_id : ℕ) (p : Packet)
    → thread_id < receiver_threads
    → IsDirected p
    → steers (install_flow_rule (port_of thread_id)) p ≡ true
    → IsFor thread_id p
unfolding install_flow_rule port_of
directed-IsFor steers law thread_id p low (small, port) e = omega (
  arith,
  htons-injective (base_dst_port + p.data_hdr.receiver_thread)
      ((base_dst_port + thread_id) % 2 ^ 16) (omega arith) (omega arith)
      (sym port ∙ law (install_flow_rule (port_of thread_id)) p refl e),
)

-- The packet of an arrival is one that was sent, and the rule of the thread steers it.
abbrev pub IsArrival : (FlowRule → Packet → Bool) → ℕ → List Packet → Event → Type 0
IsArrival steers thread_id sent (arrive p) =
    (before : List Packet) × (after : List Packet) × (sent ≡ before ++ p ∷ after)
    × (steers (install_flow_rule (port_of thread_id)) p ≡ true)
IsArrival steers thread_id sent poll = Unit

arrivals-IsForThread :
    (steers : FlowRule → Packet → Bool) (law : SteersLaw steers) (thread_id : ℕ)
    (sent : List Packet) (es : List Event)
    → thread_id < receiver_threads
    → All IsDirected sent
    → All (IsArrival steers thread_id sent) es
    → All (IsForThread thread_id) es
arrivals-IsForThread steers law thread_id sent [] low directed h = tt
arrivals-IsForThread steers law thread_id sent (arrive p ∷ es) low directed
      ((before, after, at, e), h) =
    (
      directed-IsFor steers law thread_id p low
          (All-after IsDirected before (p ∷ after) (subst (All IsDirected) at directed)).0 e,
      arrivals-IsForThread steers law thread_id sent es low directed h,
    )
arrivals-IsForThread steers law thread_id sent (poll ∷ es) low directed (_, h) =
    (tt, arrivals-IsForThread steers law thread_id sent es low directed h)

-- A thread that receives what its flow rule steers to it of the packets that the sender has posted,
-- in any order, with losses and repetitions, and with polls between: its assertion on the packets
-- never fails, and it prints what leaves a queue of 512 packets that drops packets when it is full.
pub run-send_loop :
    (steers : FlowRule → Packet → Bool) (law : SteersLaw steers) (ring thread_id : ℕ)
    (memory : ℕ → Packet) (turns : List Turn) (s : Sender) (es : List Event)
    → thread_id < receiver_threads
    → All (IsArrival steers thread_id (send_loop turns s)) es
    → (t : Receiver) × (run ring thread_id es (start ring memory) ≡ some t)
      × (t.printed ≡ (fifo_run es (record { pending = []; taken = [] })).taken)
      × (t.ring_head < rq_depth)
run-send_loop steers law ring thread_id memory turns s es low h =
    run-fifo_run ring thread_id memory es (
      arrivals-IsForThread steers law thread_id (send_loop turns s) es low
        (send_loop-IsDirected turns s) h)
