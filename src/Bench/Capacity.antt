-- ===== src/Bench/Capacity.antt =====
-- memory-capacity/ and gpu/seqMem/cpu.c: sums and pointer chasing over a large log.
use systemish.Base.{
  ℕ, zero, suc, ◌+◌, ◌-◌, ◌*◌, ◌/◌, ◌%◌, ◌^◌, ◌<◌, ◌≡◌, refl, ap, ◌∙◌, arith, add32, minus_one,
  ◌==◌, if◌then◌else◌, for_below, for_below-sum, false, fill, fill-below, sum_below, sum_below-ext,
  Option, none, some, Host, Exit, returned, exited, fault, out_of_fuel, deref,
}

-- LOG_CAP; `& LOG_CAP_` is a mask of 27 ones.
abbrev pub log_cap : ℕ
log_cap = 128 * 1024 * 1024

abbrev pub num_accesses : ℕ
num_accesses = 32 * 1024 * 1024

-- `init_ht_log` of memory-capacity/rand-rate.c
unfoldable pub init_ht_log : Host → Exit (ℕ → ℕ)
init_ht_log h =
    if h.sid == minus_one
    then exited 0
    else deref h.segment λ seg. returned (fill log_cap (λ i. i) seg)

-- One pass of the endless loop of `main` of rand-rate.c.
unfoldable pub pass : (ℕ → ℕ) → (ℕ → ℕ) → ℕ → ℕ
pass ht_log ind sum = for_below num_accesses (λ i s. add32 s (ht_log (ind i))) sum

-- The sum after `n` passes; the indices are random.
unfoldable pub passes : (ℕ → ℕ) → Host → ℕ → Exit ℕ
passes ht_log h n = deref h.heap λ mem.
    let ind = fill num_accesses (λ i. h.rand i % log_cap) mem in
    returned (for_below n (λ _ sum. pass ht_log ind sum) 0)

-- `main` of rand-rate.c after `init_ht_log`.
unfoldable pub rate_after : Host → ℕ → Exit (ℕ → ℕ) → Exit ℕ
rate_after h n (returned ht_log) = passes ht_log h n
rate_after h n (exited k) = exited k
rate_after h n fault = fault
rate_after h n out_of_fuel = out_of_fuel

-- `main` of rand-rate.c with the one argument that it asserts, as far as its `n`th pass. The
-- argument is the key of the segment, and so the host's.
unfoldable pub main_rand_rate : Host → ℕ → Exit ℕ
unfolding rate_after
main_rand_rate h n = rate_after h n (init_ht_log h)

-- `init_ht_log` of memory-capacity/rand-latency.c
unfoldable pub init_ht_log_latency : Host → Exit (ℕ → ℕ)
init_ht_log_latency h =
    if h.sid == minus_one
    then exited 0
    else deref h.segment λ seg. returned (fill log_cap (λ i. h.rand i % log_cap) seg)

pub record Jump : Type 0 where
  pub iter : ℕ
  pub jumper : ℕ

-- One round of the endless loop of rand-latency.c.
unfoldable pub jump : (ℕ → ℕ) → Jump → Jump
jump ht_log s =
    let iter = add32 s.iter 1 in
    record { iter = iter; jumper = add32 (ht_log (s.jumper % log_cap)) iter }

-- The first `n` rounds, from the number that `rand` gives after those for the log.
unfoldable pub jumps : (ℕ → ℕ) → ℕ → ℕ → Jump
jumps ht_log first n =
    for_below n (λ _ s. jump ht_log s) (record { iter = 0; jumper = first % log_cap })

-- `main` of rand-latency.c, as far as its `n`th round.
unfoldable pub main_rand_latency : Host → ℕ → Exit Jump
main_rand_latency h n = elim (init_ht_log_latency h) [
  | returned ht_log ↦ returned (jumps ht_log (h.rand log_cap) n)
  | exited k ↦ exited k
  | fault ↦ fault
  | out_of_fuel ↦ out_of_fuel
]

-- The sum after `n` passes over numbers `f`.
abbrev sum_of_passes : ℕ → ℕ → (ℕ → ℕ) → ℕ
sum_of_passes n num f = for_below n (λ _ s. for_below num (λ i t. add32 t (f i)) s) 0

sum_of_passes-suc :
    (n num : ℕ) (f : ℕ → ℕ)
    → sum_of_passes (suc n) num f ≡ for_below num (λ i t. add32 t (f i)) (sum_of_passes n num f)
unfolding for_below
sum_of_passes-suc n num f = refl

sum_of_passes-step :
    (n num : ℕ) (f : ℕ → ℕ)
    → sum_of_passes n num f ≡ (n * sum_below num f) % 2 ^ 32
    → sum_of_passes (suc n) num f ≡ (suc n * sum_below num f) % 2 ^ 32
sum_of_passes-step n num f e =
    sum_of_passes-suc n num f
    ∙ for_below-sum num f (sum_of_passes n num f) (omega (arith, e))
    ∙ omega (arith, e)

sum_of_passes-eq : (n num : ℕ) (f : ℕ → ℕ) → sum_of_passes n num f ≡ (n * sum_below num f) % 2 ^ 32
unfolding for_below
sum_of_passes-eq zero num f = omega arith
sum_of_passes-eq (suc n) num f = sum_of_passes-step n num f (sum_of_passes-eq n num f)

init_ht_log-returned :
    (h : Host) {seg : ℕ → ℕ}
    → (h.sid == minus_one) ≡ false
    → h.segment ≡ some seg
    → init_ht_log h ≡ returned (fill log_cap (λ i. i) seg)
unfolding init_ht_log
init_ht_log-returned h ok e = rw (ok, e)

passes-sum :
    (log : ℕ → ℕ) (h : Host) {mem : ℕ → ℕ} (n : ℕ)
    → h.heap ≡ some mem
    → passes log h n
      ≡ returned (
          (n
            * sum_below num_accesses (λ i. log (fill num_accesses (λ k. h.rand k % log_cap) mem i)))
          % 2 ^ 32)
unfolding passes pass
passes-sum log h {mem} n e = rw e (
    ap returned (
      sum_of_passes-eq n num_accesses
        (λ i. log (fill num_accesses (λ k. h.rand k % log_cap) mem i))))

-- If the calls of the host succeed, the sum that rand-rate.c prints after `n` passes is, modulo
-- 2 ^ 32, `n` times that of the random indices.
pub main_rand_rate-sum :
    (h : Host) {seg mem : ℕ → ℕ} (n : ℕ)
    → (h.sid == minus_one) ≡ false
    → h.segment ≡ some seg
    → h.heap ≡ some mem
    → main_rand_rate h n
      ≡ returned ((n * sum_below num_accesses (λ i. h.rand i % log_cap)) % 2 ^ 32)
unfolding main_rand_rate rate_after
main_rand_rate-sum h {seg} {mem} n ok eseg emem =
    ap (rate_after h n) (init_ht_log-returned h ok eseg)
    ∙ passes-sum (fill log_cap (λ k. k) seg) h n emem
    ∙ ap (λ t. returned ((n * t) % 2 ^ 32)) (sum_below-ext num_accesses _ _ value)
  where
    value :
        (i : ℕ)
        → i < num_accesses
        → fill log_cap (λ k. k) seg (fill num_accesses (λ k. h.rand k % log_cap) mem i)
          ≡ h.rand i % log_cap
    value i low =
        ap (fill log_cap (λ k. k) seg) (fill-below (λ k. h.rand k % log_cap) mem num_accesses i low)
        ∙ fill-below (λ k. k) seg log_cap (h.rand i % log_cap) (omega arith)

-- gpu/seqMem/cpu.c: LOG_CAP in `long long`s, and the loop of `cpu_run`, a cache line at a time.
abbrev pub cpu_log_cap : ℕ
cpu_log_cap = 192 * 1024 * 1024

unfoldable pub cpu_run : (ℕ → ℕ) → ℕ
cpu_run log = for_below (cpu_log_cap / 8) (λ k sum. (sum + log (8 * k)) % 2 ^ 64) 0

-- `main` as far as the first `cpu_run`; `malloc` must succeed.
unfoldable pub main_cpu : Host → Option ℕ
main_cpu h = elim h.heap [ none ↦ none | some mem ↦ some (cpu_run (fill cpu_log_cap (λ i. i) mem)) ]

-- 0 + 8 + … + 8 (n - 1)
double_cpu_sum : (n : ℕ) → sum_below n (λ k. 8 * k) + 4 * n ≡ 4 * (n * n)
unfolding sum_below
double_cpu_sum zero = refl
double_cpu_sum (suc n) = omega (arith, double_cpu_sum n)

for_below-sum64 :
    (n : ℕ) (f : ℕ → ℕ) → for_below n (λ k s. (s + f k) % 2 ^ 64) 0 ≡ sum_below n f % 2 ^ 64
unfolding for_below sum_below
for_below-sum64 zero f = refl
for_below-sum64 (suc n) f = omega (arith, for_below-sum64 n f)

-- If `malloc` succeeds, the sum of a run of cpu.c is that of the multiples of 8 below LOG_CAP,
-- with no wrap-around.
pub main_cpu-sum :
    (h : Host) {mem : ℕ → ℕ}
    → h.heap ≡ some mem
    → main_cpu h ≡ some (4 * ((cpu_log_cap / 8) * (cpu_log_cap / 8 - 1)))
unfolding main_cpu cpu_run
main_cpu-sum h {mem} e = rw e (
    ap some (
      for_below-sum64 (cpu_log_cap / 8) (λ k. fill cpu_log_cap (λ i. i) mem (8 * k))
      ∙ omega (
        arith,
        sum_below-ext (cpu_log_cap / 8) (λ k. fill cpu_log_cap (λ i. i) mem (8 * k)) (λ k. 8 * k)
            (λ k low. fill-below (λ i. i) mem cpu_log_cap (8 * k) (omega arith)),
        double_cpu_sum (cpu_log_cap / 8),
      )))
