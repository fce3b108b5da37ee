-- ===== src/Bench/CpuHog.antt =====
-- cpu-hog/cpu-hog-mod.c and cpu-hog/cpu-hog-mul.c, and bench/modulo/bench.c: loops of arithmetic
-- on an `int`.
use systemish.Base.{
  ℕ, zero, suc, ◌+◌, ◌*◌, ◌%◌, ◌^◌, ◌≤◌, ◌<◌, ◌≡◌, refl, ap, ◌∙◌, arith, ◌-◌, ◌≢◌, is_negative,
  add32, mul32, srem, for_below, for_below-sum, sum_below, Exit, returned, fault, ◌==◌,
  if◌then◌else◌, false,
}

abbrev pub iters : ℕ
iters = 1024 * 1024 * 1024

-- cpu-hog-mod.c: the body has the statement `sum = (sum + i) % ITERS` 24 times.
unfoldable pub mod_step : ℕ → ℕ → ℕ
mod_step i sum = srem (add32 sum i) iters

unfoldable pub mod_body : ℕ → ℕ → ℕ
mod_body i sum = for_below 24 (λ _ s. mod_step i s) sum

unfoldable pub mod_loop : ℕ → ℕ
mod_loop n = for_below n mod_body 23

unfoldable pub main_mod : ℕ
main_mod = mod_loop iters

-- cpu-hog-mul.c
unfoldable pub mul_loop : ℕ → ℕ
mul_loop n = for_below n (λ i sum. mul32 sum i) 23

unfoldable pub main_mul : ℕ
main_mul = mul_loop iters

-- bench/modulo/bench.c: NUM_OPS and the loop for the `int` that is its argument. `i` is not
-- negative, so `i % modulo` is the remainder by the magnitude of `modulo`; by 0 it faults. The
-- assertion that there is one argument holds.
abbrev pub num_ops : ℕ
num_ops = 1024 * 1024 * 128

abbrev pub magnitude : ℕ → ℕ
magnitude a = if is_negative a then 2 ^ 32 - a else a

unfoldable pub modulo_loop : ℕ → ℕ → ℕ
modulo_loop modulo n = for_below n (λ i sum. add32 sum (i % magnitude modulo)) 0

unfoldable pub main_modulo : ℕ → Exit ℕ
main_modulo modulo = if modulo == 0 then fault else returned (modulo_loop modulo num_ops)

-- `sum + i` never leaves the range of an `int`: a step adds exactly, and stays below ITERS.
mod_step_lem :
    (i sum : ℕ)
    → i < iters
    → sum < iters
    → (sum + i < 2 ^ 31) × (mod_step i sum ≡ (sum + i) % iters)
unfolding mod_step
mod_step_lem i sum hi hs = (omega arith, ground arith)

mod_steps-eq :
    (i sum k : ℕ)
    → i < iters
    → sum < iters
    → for_below k (λ _ s. mod_step i s) sum ≡ (sum + k * i) % iters
unfolding for_below
mod_steps-eq i sum zero hi hs = omega arith
mod_steps-eq i sum (suc k) hi hs =
    ap (mod_step i) (mod_steps-eq i sum k hi hs)
    ∙ (mod_step_lem i ((sum + k * i) % iters) hi (omega arith)).1
    ∙ omega arith

-- After `n` rounds, at most ITERS, of cpu-hog-mod.c `sum` is 23 and 24 times the sum of the
-- counters, modulo ITERS.
pub mod_loop-eq : (n : ℕ) → n ≤ iters → mod_loop n ≡ (23 + 24 * sum_below n (λ i. i)) % iters
unfolding mod_loop for_below sum_below mod_body
mod_loop-eq zero h = refl
mod_loop-eq (suc n) h =
    ap (mod_body n) (mod_loop-eq n (omega arith))
    ∙ mod_steps-eq n ((23 + 24 * sum_below n (λ i. i)) % iters) 24 (omega arith) (omega arith)
    ∙ omega arith

-- The product of cpu-hog-mul.c is 0 after any number of rounds but none.
pub mul_loop-zero : (n : ℕ) → mul_loop (suc n) ≡ 0
unfolding mul_loop for_below
mul_loop-zero zero = refl
mul_loop-zero (suc n) = rw (mul_loop-zero n) (omega arith)

-- For every argument but 0, bench/modulo/bench.c ends with the sum, modulo 2 ^ 32, of the
-- remainders of the counters by the magnitude of the argument.
pub main_modulo-sum :
    (modulo : ℕ)
    → modulo ≢ 0
    → main_modulo modulo ≡ returned (sum_below num_ops (λ i. i % magnitude modulo) % 2 ^ 32)
unfolding main_modulo modulo_loop
main_modulo-sum modulo ne =
    let off : (modulo == 0) ≡ false = ground arith in
    rw off (
      ap returned (for_below-sum num_ops (λ i. i % magnitude modulo) 0 (omega arith) ∙ omega arith))
