-- ===== src/RawEth/Fifo.antt =====
-- The ring of raw_eth/rxtx/receiver.cc is a queue of at most `kRQDepth` packets.
use systemish.Base.{
  true, false, ℕ, zero, suc, ◌+◌, ◌%◌, ◌≤◌, ◌<◌, ◌≡◌, ◌≢◌, refl, sym, ap, ◌∙◌, arith, List, [], ◌∷◌,
  ◌++◌, map, length, length-append, All, All-append, some, ◌>>=◌, update, ◌==◌, ==_iff, ltb,
  if◌then◌else◌,
}
use mathlib.Core.Path.{subst}
use mathlib.Core.List.{head-eq_of_cons-eq, tail-eq_of_cons-eq, append_assoc}
use systemish.RawEth.Frame.{Packet, rq_depth}
use systemish.RawEth.Receiver.{
  Receiver, Event, arrive, poll, buffer_of, post_recv, attach_all, start, handle, deliver, poll_cq,
  step, run,
}
use systemish.RawEth.Ring.{
  around, around-length, around-next, around-distinct, map-update, length-map, map-append,
}
use mathlib.Core.List.{append-nil}

-- The queue: the packets that wait, the oldest first, and those that have been taken.
pub record Fifo : Type 0 where
  pub pending : List Packet
  pub taken : List Packet

abbrev pub put : Packet → Fifo → Fifo
put p f = if ltb (length f.pending) rq_depth then record f { pending = f.pending ++ p ∷ [] } else f

abbrev pub take : List Packet → Fifo → Fifo
take [] f = f
take (p ∷ rest) f = record { pending = rest; taken = f.taken ++ p ∷ [] }

abbrev pub fifo_step : Event → Fifo → Fifo
fifo_step (arrive p) f = put p f
fifo_step poll f = take f.pending f

abbrev pub fifo_run : List Event → Fifo → Fifo
fifo_run [] f = f
fifo_run (e ∷ es) f = fifo_run es (fifo_step e f)

abbrev pub IsFor : ℕ → Packet → Type 0
IsFor thread_id p = p.data_hdr.receiver_thread ≡ thread_id

abbrev pub IsForThread : ℕ → Event → Type 0
IsForThread thread_id (arrive p) = IsFor thread_id p
IsForThread thread_id poll = Unit

-- The state of the thread stands for a queue.
record Rep (ring thread_id : ℕ) (r : Receiver) (f : Fifo) : Type 0 where
  rotated : r.completed ++ r.posted ≡ around ring rq_depth r.ring_head
  inside : r.ring_head < rq_depth
  held : map r.memory r.completed ≡ f.pending
  ours : All (IsFor thread_id) f.pending
  shown : r.printed ≡ f.taken

module _ (ring thread_id : ℕ) where
  full :
      (r : Receiver) (f : Fifo)
      → Rep ring thread_id r f
      → length f.pending + length r.posted ≡ rq_depth
  full r f rep = omega (
    arith,
    ap length rep.rotated,
    length-append r.completed r.posted,
    around-length ring rq_depth r.ring_head,
    length-map r.memory r.completed,
    ap length rep.held,
  )

  deliver-Rep :
      (p : Packet) (r : Receiver) (f : Fifo) (posted : List ℕ)
      → IsFor thread_id p
      → Rep ring thread_id r f
      → r.posted ≡ posted
      → Rep ring thread_id (deliver p posted r) (put p f)
  unfolding deliver
  deliver-Rep p r f [] own rep e = rw no_room rep
    where
      no_room : ltb (length f.pending) rq_depth ≡ false
      no_room = ground (arith, full r f rep, ap length e)
  deliver-Rep p r f (a ∷ rest) own rep e = rw room (record {
    rotated = append_assoc r.completed (a ∷ []) rest ∙ sym order;
    inside = rep.inside;
    held =
        map-append (update r.memory a p) r.completed (a ∷ [])
        ∙ ap (λ l. l ++ update r.memory a p a ∷ [])
            (map-update r.memory a p r.completed fresh ∙ rep.held)
        ∙ ap (λ q. f.pending ++ q ∷ []) (ground arith);
    ours = All-append (IsFor thread_id) f.pending (p ∷ []) rep.ours (own, tt);
    shown = rep.shown;
  })
    where
      room : ltb (length f.pending) rq_depth ≡ true
      room = ground (arith, full r f rep, ap length e)

      order : around ring rq_depth r.ring_head ≡ r.completed ++ a ∷ rest
      order = sym rep.rotated ∙ ap (λ l. r.completed ++ l) e

      fresh : All (λ x. x ≢ a) r.completed
      fresh =
          around-distinct ring rq_depth r.ring_head r.completed rest a rep.inside (omega arith)
            (sym order)

  -- The state after the oldest packet has been printed and its buffer posted again.
  abbrev handled : Receiver → List ℕ → Receiver
  handled r rest = record r {
    completed = rest;
    posted = r.posted ++ buffer_of ring r.ring_head ∷ [];
    printed = r.printed ++ r.memory (buffer_of ring r.ring_head) ∷ [];
    ring_head = (r.ring_head + 1) % rq_depth;
  }

  handle-Rep :
      (r : Receiver) (f : Fifo) (a : ℕ) (rest : List ℕ)
      → Rep ring thread_id r f
      → r.completed ≡ a ∷ rest
      → (handle ring thread_id (record r { completed = rest }) ≡ some (handled r rest))
        × Rep ring thread_id (handled r rest) (take f.pending f)
  unfolding handle post_recv
  handle-Rep r f a rest rep e = (
    rw mine refl,
    subst (λ l. Rep ring thread_id (handled r rest) (take l f)) (sym waiting)
        (record {
          rotated =
              sym (append_assoc rest r.posted (buffer_of ring r.ring_head ∷ []))
              ∙ ap (λ l. l ++ buffer_of ring r.ring_head ∷ []) (tail-eq_of_cons-eq order)
              ∙ ap (λ k. around ring 511 next ++ buffer_of ring k ∷ []) (omega (arith, rep.inside))
              ∙ around-next ring 511 next (omega arith);
          inside = omega arith;
          held = refl;
          ours = own.1;
          shown =
              ap (λ l. l ++ r.memory (buffer_of ring r.ring_head) ∷ []) rep.shown
              ∙ ap (λ b. f.taken ++ r.memory b ∷ []) at;
        }),
  )
    where
      next : ℕ
      next = (r.ring_head + 1) % rq_depth

      waiting : f.pending ≡ r.memory a ∷ map r.memory rest
      waiting = sym rep.held ∙ ap (map r.memory) e

      order : a ∷ (rest ++ r.posted) ≡ around ring rq_depth r.ring_head
      order = ap (λ l. l ++ r.posted) (sym e) ∙ rep.rotated

      at : buffer_of ring r.ring_head ≡ a
      at = sym (head-eq_of_cons-eq order)

      own : All (IsFor thread_id) (r.memory a ∷ map r.memory rest)
      own = subst (All (IsFor thread_id)) waiting rep.ours

      mine : ((r.memory (buffer_of ring r.ring_head)).data_hdr.receiver_thread == thread_id) ≡ true
      mine = (==_iff _ thread_id).1 (ap (λ b. (r.memory b).data_hdr.receiver_thread) at ∙ own.0)

  poll_cq-Rep :
      (r : Receiver) (f : Fifo) (completed : List ℕ)
      → Rep ring thread_id r f
      → r.completed ≡ completed
      → (t : Receiver) × (poll_cq ring thread_id completed r ≡ some t)
        × Rep ring thread_id t (take f.pending f)
  unfolding poll_cq
  poll_cq-Rep r f [] rep e =
      (r, refl, subst (λ l. Rep ring thread_id r (take l f)) (sym none_waits) rep)
    where
      none_waits : f.pending ≡ []
      none_waits = sym rep.held ∙ ap (map r.memory) e
  poll_cq-Rep r f (a ∷ rest) rep e =
      let (run, after) = handle-Rep r f a rest rep e in (handled r rest, run, after)

  step-Rep :
      (e : Event) (r : Receiver) (f : Fifo)
      → IsForThread thread_id e
      → Rep ring thread_id r f
      → (t : Receiver) × (step ring thread_id e r ≡ some t) × Rep ring thread_id t (fifo_step e f)
  unfolding step
  step-Rep (arrive p) r f own rep =
      (deliver p r.posted r, refl, deliver-Rep p r f r.posted own rep refl)
  step-Rep poll r f own rep = poll_cq-Rep r f r.completed rep refl

  run-Rep :
      (es : List Event) (r : Receiver) (f : Fifo)
      → All (IsForThread thread_id) es
      → Rep ring thread_id r f
      → (t : Receiver) × (run ring thread_id es r ≡ some t) × Rep ring thread_id t (fifo_run es f)
  unfolding run
  run-Rep [] r f own rep = (r, refl, rep)
  run-Rep (e ∷ es) r f (own, owns) rep =
      let (t, at, rep') = step-Rep e r f own rep in
      let (u, at', rep'') = run-Rep es t (fifo_step e f) owns rep' in
      (u, ap (λ o. o >>= run ring thread_id es) at ∙ at', rep'')

attach_all-posted :
    (ring n i : ℕ) (r : Receiver)
    → i + n ≤ rq_depth
    → attach_all ring n i r ≡ record r { posted = r.posted ++ around ring n i }
unfolding attach_all post_recv
attach_all-posted ring zero i r h = ap (λ l. record r { posted = l }) (sym (append-nil r.posted))
attach_all-posted ring (suc zero) i r h = refl
attach_all-posted ring (suc (suc n)) i r h =
    attach_all-posted ring (suc n) (i + 1) (record r { posted = r.posted ++ buffer_of ring i ∷ [] })
      (omega arith)
    ∙ ap (λ l. record r { posted = l })
        (append_assoc r.posted (buffer_of ring i ∷ []) (around ring (suc n) (i + 1))
          ∙ ap (λ k. r.posted ++ buffer_of ring i ∷ around ring (suc n) k) inside)
  where
    inside : i + 1 ≡ (i + 1) % rq_depth
    inside = omega arith

start-Rep :
    (ring thread_id : ℕ) (memory : ℕ → Packet)
    → Rep ring thread_id (start ring memory) (record { pending = []; taken = [] })
unfolding start
start-Rep ring thread_id memory =
    subst (λ r. Rep ring thread_id r (record { pending = []; taken = [] }))
      (sym (attach_all-posted ring rq_depth 0 empty (omega arith)))
      (record { rotated = refl; inside = omega arith; held = refl; ours = tt; shown = refl })
  where
    empty : Receiver
    empty = record { memory = memory; posted = []; completed = []; ring_head = 0; printed = [] }

-- A thread that only receives packets for it runs without a failed assertion, and what it prints is
-- what leaves a queue that takes a packet when fewer than 512 wait and drops it otherwise: each
-- packet once, as it arrived, the oldest first.
pub run-fifo_run :
    (ring thread_id : ℕ) (memory : ℕ → Packet) (es : List Event)
    → All (IsForThread thread_id) es
    → (t : Receiver) × (run ring thread_id es (start ring memory) ≡ some t)
      × (t.printed ≡ (fifo_run es (record { pending = []; taken = [] })).taken)
      × (t.ring_head < rq_depth)
run-fifo_run ring thread_id memory es own =
    let (t, at, rep) =
      run-Rep ring thread_id es (start ring memory) (record { pending = []; taken = [] }) own
        (start-Rep ring thread_id memory) in
    (t, at, rep.shown, rep.inside)
