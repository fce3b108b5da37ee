-- ===== src/Examples/Gpu.antt =====
-- The program of gpu/mtMappedMemory at a concrete state.
use systemish.Base.{
  zero, suc, ◌*◌, ◌%◌, true, List, [], ◌∷◌, ◌%◌, [], ◌+◌, ◌*◌, List, true, ℕ, ◌<◌, ◌≡◌, ◌≢◌, update,
  arith,
}
use systemish.Gpu.Mapped.{
  num_pkts, iters, World, clearing, polling, mismatch, returned, clear, spin, host, kernel,
  main_world, Steps, none_yet, then_one, Reachable,
}
use systemish.Gpu.Handshake.{handshake-no_mismatch}
use systemish.Gpu.RandMem.{
  depth, cpu_run, kernel_run, thread_step, copied, Synchronized, agree, hops, agree-kernel_run,
}
use systemish.Gpu.Progress.{handshake-returns}

-- A thread of the kernel has polled, and the host has cleared a cell.
abbrev early : World
early = record {
  shared = record main_world.shared { b = update main_world.shared.b 0 0 };
  cpu = clearing 0 1;
  lanes = update main_world.lanes 3 (polling 0);
}

abbrev early_reached : Reachable early
early_reached =
    then_one (then_one none_yet (kernel 3 (omega arith) (spin (omega arith) (omega arith))))
      (host (clear (omega arith)))

handshake-no_mismatch_example :
    (early.cpu ≢ mismatch)
    × (early.cpu ≡ returned → (i : ℕ) → i < num_pkts → early.lanes i ≡ polling iters)
handshake-no_mismatch_example = handshake-no_mismatch early early_reached

handshake-returns_example : (t : World) × Steps early t × (t.cpu ≡ returned)
handshake-returns_example = handshake-returns early early_reached

-- Two threads take turns, 20 rounds each.
abbrev rounds : ℕ → List ℕ
rounds zero = []
rounds (suc n) = 1 ∷ 0 ∷ rounds n

abbrev small_log : ℕ → ℕ
small_log x = (x * 5 + 3) % 8

all_ended : Synchronized 2 (kernel_run small_log 2 (rounds 20) (copied (λ i. i)))
unfolding kernel_run thread_step
all_ended zero h low = omega arith
all_ended (suc zero) h low = omega arith
all_ended (suc (suc i)) h low = absurd (omega (arith, low))

agree-kernel_run_example :
    (agree 2
        (cpu_run small_log 2 (λ i. i))
        (kernel_run small_log 2 (rounds 20) (copied (λ i. i))).pkts
      ≡ true)
    × ((i : ℕ) → i < 2 → cpu_run small_log 2 (λ i. i) i ≡ hops small_log depth i)
agree-kernel_run_example = agree-kernel_run small_log 2 (rounds 20) (λ i. i) all_ended
