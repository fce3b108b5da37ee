-- ===== src/Goto/Log/Total.antt =====
-- `main` over a batch routine that adds one log entry for each packet.
use systemish.Base.{
  ℕ, zero, suc, ◌+◌, ◌*◌, ◌/◌, ◌%◌, ◌^◌, ◌<◌, ◌≡◌, refl, ap, ◌∙◌, sym, false, is_negative, some,
  arith, for_below, fill, fill-below, sum_below, sum_below-ext, sum_below-add, Host, returned,
  exited, deref, minus_one, if◌then◌else◌,
}
use systemish.Goto.Log.{log_cap, Process, batches, finish, main_with}

-- On memory `log` the routine adds `value log a` to `sum` for each packet `a` of the batch.
abbrev pub AddsValues : ((ℕ → ℕ) → ℕ → ℕ) → Process → Type 0
AddsValues value process =
    (ht_log pkt_lo : ℕ → ℕ) (s : ℕ)
    → s < 2 ^ 32
    → process ht_log pkt_lo s ≡ some ((s + sum_below 8 (λ i. value ht_log (pkt_lo i))) % 2 ^ 32)

-- The value of a program that reads the log at an address of each packet.
abbrev pub entry_at : (ℕ → ℕ) → (ℕ → ℕ) → ℕ → ℕ
entry_at address ht_log a = ht_log (address a)

module _ (value : (ℕ → ℕ) → ℕ → ℕ) (process : Process) (adds : AddsValues value process) where
  pub batches-sum :
      (ht_log pkts : ℕ → ℕ) (n : ℕ)
      → batches process ht_log pkts n
        ≡ some (sum_below (8 * n) (λ i. value ht_log (pkts i)) % 2 ^ 32)
  unfolding batches for_below sum_below
  batches-sum ht_log pkts zero = ap some empty
    where
      empty : 0 ≡ sum_below 0 (λ i. value ht_log (pkts i)) % 2 ^ 32
      empty = refl
  batches-sum ht_log pkts (suc n) = rw (batches-sum ht_log pkts n) (
      adds ht_log (λ k. pkts (8 * n + k)) _ (omega arith)
      ∙ ap some (omega (arith, sum_below-add (8 * n) 8 entry, ap (λ k. sum_below k entry) eight)))
    where
      entry : ℕ → ℕ
      entry i = value ht_log (pkts i)

      eight : 8 * suc n ≡ 8 * n + 8
      eight = omega arith

-- Two routines that add the same values agree on any number of batches.
pub batches-eq :
    (value : (ℕ → ℕ) → ℕ → ℕ) (p q : Process)
    → AddsValues value p
    → AddsValues value q
    → (ht_log pkts : ℕ → ℕ) (n : ℕ) → batches p ht_log pkts n ≡ batches q ht_log pkts n
batches-eq value p q adds_p adds_q ht_log pkts n =
    batches-sum value p adds_p ht_log pkts n ∙ sym (batches-sum value q adds_q ht_log pkts n)

-- So they make programs with the same result on every host.
pub main_with-eq :
    (value : (ℕ → ℕ) → ℕ → ℕ) (p q : Process)
    → AddsValues value p
    → AddsValues value q
    → (num_pkts : ℕ) (h : Host) → main_with p num_pkts h ≡ main_with q num_pkts h
unfolding main_with
main_with-eq value p q adds_p adds_q num_pkts h = λ i.
    if is_negative h.sid
    then exited minus_one
    else deref h.segment λ log_memory. deref h.heap λ pkt_memory. finish (
        batches-eq value p q adds_p adds_q (fill log_cap (λ k. k) log_memory)
          (fill num_pkts (λ k. h.rand k % log_cap) pkt_memory) (num_pkts / 8) i)

-- If the calls of the host succeed, `main` prints the sum over all packets of their addresses,
-- since entry `i` of the log is `i`.
pub main_with-sum :
    (address : ℕ → ℕ) (process : Process)
    → AddsValues (entry_at address) process
    → (num_pkts : ℕ) (h : Host) {log_memory pkt_memory : ℕ → ℕ} → num_pkts % 8 ≡ 0
    → ((a : ℕ) → address a < log_cap)
    → is_negative h.sid ≡ false
    → h.segment ≡ some log_memory
    → h.heap ≡ some pkt_memory
    → main_with process num_pkts h
      ≡ returned (sum_below num_pkts (λ i. address (h.rand i % log_cap)) % 2 ^ 32)
unfolding main_with
main_with-sum address process adds num_pkts h {log_memory} {pkt_memory} whole bound ok seg heap =
    rw (ok, seg, heap)
      (ap finish (
        batches-sum (entry_at address) process adds log pkts (num_pkts / 8)
        ∙ ap some (omega (arith, ap (λ k. sum_below k entry) count, same))))
  where
    log : ℕ → ℕ
    log = fill log_cap (λ i. i) log_memory

    pkts : ℕ → ℕ
    pkts = fill num_pkts (λ i. h.rand i % log_cap) pkt_memory

    entry : ℕ → ℕ
    entry i = log (address (pkts i))

    count : 8 * (num_pkts / 8) ≡ num_pkts
    count = omega arith

    same : sum_below num_pkts entry ≡ sum_below num_pkts (λ i. address (h.rand i % log_cap))
    same = sum_below-ext num_pkts entry _ λ i below.
        fill-below (λ k. k) log_memory log_cap (address (pkts i)) (bound (pkts i))
        ∙ ap address (fill-below (λ k. h.rand k % log_cap) pkt_memory num_pkts i below)
