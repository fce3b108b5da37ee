-- ===== src/RawEth/Sequence.antt =====
-- The packets of raw_eth/rxtx/sender.cc: where each is directed, and how they are numbered.
use systemish.Base.{
  ℕ, ◌+◌, ◌%◌, ◌^◌, ◌<◌, ◌≡◌, refl, ap, arith, List, [], ◌∷◌, All, is_negative, ◌==◌, ==_iff, Bool,
  ◌⊎◌, true, false, if◌then◌else◌, Bool-cases, inl, inr,
}
use mathlib.Core.Path.{subst}
use systemish.RawEth.Frame.{Packet, htons, base_dst_port, receiver_threads}
use systemish.RawEth.Sender.{Sender, Turn, direct, send_loop, next_u32}

-- A packet goes to the port of the thread that it names.
abbrev pub IsDirected : Packet → Type 0
IsDirected p =
    (p.data_hdr.receiver_thread < receiver_threads)
    × (p.udp_hdr.dst_port ≡ htons (base_dst_port + p.data_hdr.receiver_thread))

-- The numbers of the packets for a thread.
abbrev pub seq_nums : ℕ → List Packet → List ℕ
seq_nums thread_id [] = []
seq_nums thread_id (p ∷ ps) =
    let rest = seq_nums thread_id ps in
    if p.data_hdr.receiver_thread == thread_id then p.data_hdr.seq_num ∷ rest else rest

-- They count up from `k`.
abbrev pub IsCounting : ℕ → List ℕ → Type 0
IsCounting k [] = Unit
IsCounting k (n ∷ ns) = (n ≡ k) × IsCounting ((k + 1) % 2 ^ 64) ns

abbrev pub next_turn : Sender → Sender
next_turn s = record (direct s) { nb_tx = ((direct s).nb_tx + 1) % 2 ^ 64 }

-- A packet in front of packets that go on with the numbers.
direct-IsCounting :
    (s : Sender) (thread_id : ℕ) (rest : List Packet)
    → IsCounting ((direct s).seq_num thread_id) (seq_nums thread_id rest)
    → IsCounting (s.seq_num thread_id) (seq_nums thread_id ((direct s).packet ∷ rest))
unfolding direct
direct-IsCounting s thread_id rest counting = elim (Bool-cases (index == thread_id)) [
  | inl here ↦ rw here (ap s.seq_num ((==_iff index thread_id).0 here), go_on here)
  | inr elsewhere ↦
      rw elsewhere (subst (λ k. IsCounting k (seq_nums thread_id rest)) (kept elsewhere) counting)
]
  where
    index : ℕ
    index = (next_u32 s.seed).1 % receiver_threads

    kept : (index == thread_id) ≡ false → (direct s).seq_num thread_id ≡ s.seq_num thread_id
    kept h = unfold direct in ground (arith, h)

    go_on :
        (index == thread_id) ≡ true
        → IsCounting ((s.seq_num thread_id + 1) % 2 ^ 64) (seq_nums thread_id rest)
    go_on h = subst (λ k. IsCounting k (seq_nums thread_id rest)) (counted h) counting
      where
        counted :
            (index == thread_id) ≡ true
            → (direct s).seq_num thread_id ≡ (s.seq_num thread_id + 1) % 2 ^ 64
        counted h = unfold direct in ground (arith, h, ap s.seq_num ((==_iff index thread_id).0 h))

-- What a turn adds to the packets, in any case, if `P` holds of the packet and of the others.
pub if_posted :
    (P : Packet → Type 0) (posted failed : Bool) (p : Packet) (rest : List Packet)
    → P p
    → All P rest
    → All P (let later = if failed then [] else rest in if posted then p ∷ later else later)
if_posted P true true p rest h hs = (h, tt)
if_posted P true false p rest h hs = (h, hs)
if_posted P false true p rest h hs = tt
if_posted P false false p rest h hs = hs

-- Every packet that the sender posts goes to the port of the thread that it names.
pub send_loop-IsDirected : (turns : List Turn) (s : Sender) → All IsDirected (send_loop turns s)
unfolding send_loop
send_loop-IsDirected [] s = tt
send_loop-IsDirected (t ∷ ts) s = elim (Bool-cases (is_negative t.post_ret)) [
  | inl failed ↦ rw failed tt
  | inr goes_on ↦ rw goes_on (
      if_posted IsDirected (t.post_ret == 0) (is_negative t.poll_ret) (direct s).packet
        (send_loop ts (next_turn s)) (unfold direct in (omega arith, refl))
        (send_loop-IsDirected ts (next_turn s)))
]

-- The call of `ibv_post_send` succeeds, or fails with a result that the sender tells.
abbrev pub IsTold : Turn → Type 0
IsTold t = (t.post_ret ≡ 0) ⊎ (is_negative t.post_ret ≡ true)

-- The packets that the sender posts for a thread are numbered in order, from the thread's first
-- number on, without a gap, if no call of `ibv_post_send` returns a positive number, which its
-- documentation has for a failure and the sender takes for a success.
pub send_loop-IsCounting :
    (turns : List Turn) (s : Sender) (thread_id : ℕ)
    → All IsTold turns
    → IsCounting (s.seq_num thread_id) (seq_nums thread_id (send_loop turns s))
unfolding send_loop
send_loop-IsCounting [] s thread_id told = tt
send_loop-IsCounting (t ∷ ts) s thread_id (inr failed, told) = rw failed tt
send_loop-IsCounting (t ∷ ts) s thread_id (inl posted, told) =
    rw posted (elim (Bool-cases (is_negative t.poll_ret)) [
      | inl failed ↦ rw failed (direct-IsCounting s thread_id [] tt)
      | inr polled ↦ rw polled (
          direct-IsCounting s thread_id (send_loop ts (next_turn s))
            (send_loop-IsCounting ts (next_turn s) thread_id told))
    ])
