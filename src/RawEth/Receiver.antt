-- ===== src/RawEth/Receiver.antt =====
-- A thread of raw_eth/rxtx/receiver.cc: its flow rule and its ring of buffers. The queues of the
-- device are lists, the oldest entry first: the addresses that are posted, and those of the buffers
-- that have been filled. An event is the arrival of a packet that the flow rule steers to the
-- thread, or a poll by the thread.
use systemish.Base.{
  ℕ, zero, suc, ◌+◌, ◌*◌, ◌%◌, ◌^◌, List, [], ◌∷◌, ◌++◌, Option, none, some, ◌>>=◌, update, ◌==◌,
  if◌then◌else◌,
}
use systemish.RawEth.Frame.{Packet, htons, base_dst_port, recv_buf_size, rq_depth}

-- The port of a thread, and the UDP part of its flow rule.
unfoldable pub port_of : ℕ → ℕ
port_of thread_id = (base_dst_port + thread_id) % 2 ^ 16

pub record FlowRule : Type 0 where
  pub dst_port : ℕ
  pub mask : ℕ

unfoldable pub install_flow_rule : ℕ → FlowRule
install_flow_rule dst_port = record { dst_port = htons dst_port; mask = 0xffff }

-- What a thread works on: the memory, by the addresses of the buffers, and the packets it has
-- printed.
pub record Receiver : Type 0 where
  pub memory : ℕ → Packet
  pub posted : List ℕ
  pub completed : List ℕ
  pub ring_head : ℕ
  pub printed : List Packet

pub data Event : Type 0 where
  arrive : Packet → Event
  poll : Event

-- `ibv_post_recv` of a buffer
unfoldable pub post_recv : ℕ → Receiver → Receiver
post_recv addr r = record r { posted = r.posted ++ addr ∷ [] }

-- The device fills the buffer that was posted first; without one it drops the packet.
unfoldable pub deliver : Packet → List ℕ → Receiver → Receiver
deliver p [] r = r
deliver p (a ∷ rest) r = record r {
  memory = update r.memory a p;
  posted = rest;
  completed = r.completed ++ a ∷ [];
}

unfoldable pub buffer_of : ℕ → ℕ → ℕ
buffer_of ring slot = ring + recv_buf_size * slot

module _ (ring : ℕ) where
  -- The loop that attaches the buffers, `n` of them from slot `i` on.
  unfoldable pub attach_all : ℕ → ℕ → Receiver → Receiver
  unfolding post_recv buffer_of
  attach_all zero i r = r
  attach_all (suc n) i r = attach_all n (i + 1) (post_recv (buffer_of ring i) r)

  unfoldable pub start : (ℕ → Packet) → Receiver
  unfolding attach_all
  start memory =
      attach_all rq_depth 0
        (record { memory = memory; posted = []; completed = []; ring_head = 0; printed = [] })

module _ (ring thread_id : ℕ) where
  -- A turn of the inner loop, after a completion has been taken. None is a failed assertion.
  unfoldable pub handle : Receiver → Option Receiver
  unfolding post_recv buffer_of
  handle r =
      let buf : ℕ = buffer_of ring r.ring_head in
      let p : Packet = r.memory buf in
      if p.data_hdr.receiver_thread == thread_id
      then some (record (post_recv buf (record r { printed = r.printed ++ p ∷ [] })) {
        ring_head = (r.ring_head + 1) % rq_depth;
      })
      else none

  -- `ibv_poll_cq` takes the oldest completion, if there is one.
  unfoldable pub poll_cq : List ℕ → Receiver → Option Receiver
  unfolding handle
  poll_cq [] r = some r
  poll_cq (a ∷ rest) r = handle (record r { completed = rest })

  unfoldable pub step : Event → Receiver → Option Receiver
  unfolding deliver poll_cq
  step (arrive p) r = some (deliver p r.posted r)
  step poll r = poll_cq r.completed r

  unfoldable pub run : List Event → Receiver → Option Receiver
  unfolding step
  run [] r = some r
  run (e ∷ es) r = step e r >>= run es
