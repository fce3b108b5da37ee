-- ===== src/Gpu/RandMem.antt =====
-- gpu/randMem/randMem.cu: chains of lookups in a random log, for each packet, on the processor and
-- by a kernel whose threads step in any order, and the comparison of the two.
use systemish.Base.{
  ℕ, zero, suc, ◌+◌, ◌-◌, ◌*◌, ◌/◌, ◌≤◌, ◌<◌, ◌≡◌, refl, ap, sym, ◌∙◌, ltb, ◌==◌, ==_iff, ◌&&◌,
  if◌then◌else◌, Bool, true, false, Bool-cases, inl, inr, List, [], ◌∷◌, update, for_below, arith,
}
use mathlib.Core.Path.{subst}

-- DEPTH
abbrev pub depth : ℕ
depth = 20

-- `for (j = 0; j < depth; j++) pkts[i] = log[pkts[i]]`
unfoldable pub chase : (ℕ → ℕ) → ℕ → ℕ → (ℕ → ℕ) → ℕ → ℕ
chase log n i pkts = for_below n (λ j p. update p i (log (p i))) pkts

-- `cpu_run` as it is compiled, without interleaving
unfoldable pub cpu_run : (ℕ → ℕ) → ℕ → (ℕ → ℕ) → ℕ → ℕ
unfolding chase
cpu_run log num_pkts pkts = for_below num_pkts (λ i p. chase log depth i p) pkts

-- The packets on the device, and `j` of each thread of `vectorAdd`.
pub record Device : Type 0 where
  pub pkts : ℕ → ℕ
  pub j : ℕ → ℕ

-- A step of thread `i`: one round of its loop, or nothing behind it.
unfoldable pub thread_step : (ℕ → ℕ) → ℕ → ℕ → Device → Device
thread_step log num_pkts i s =
    if ltb i num_pkts && ltb (s.j i) depth
    then record { pkts = update s.pkts i (log (s.pkts i)); j = update s.j i (suc (s.j i)) }
    else s

-- The threads step in the order of the list.
unfoldable pub kernel_run : (ℕ → ℕ) → ℕ → List ℕ → Device → Device
unfolding thread_step
kernel_run log num_pkts [] s = s
kernel_run log num_pkts (i ∷ schedule) s =
    kernel_run log num_pkts schedule (thread_step log num_pkts i s)

abbrev pub threads_per_block : ℕ
threads_per_block = 256

abbrev pub blocks_per_grid : ℕ → ℕ
blocks_per_grid num_pkts = (num_pkts + threads_per_block - 1) / threads_per_block

-- The copy to the device, where each thread starts at 0.
abbrev pub copied : (ℕ → ℕ) → Device
copied pkts = record { pkts = pkts; j = λ i. 0 }

-- All threads that are launched have left their loop.
abbrev pub Synchronized : ℕ → Device → Type 0
Synchronized num_pkts s =
    (i : ℕ) → i < blocks_per_grid num_pkts * threads_per_block → i < num_pkts → depth ≤ s.j i

-- The loop of `main` that compares the packets: whether it gets to its end.
unfoldable pub agree : ℕ → (ℕ → ℕ) → (ℕ → ℕ) → Bool
agree zero a b = true
agree (suc n) a b = agree n a b && a n == b n

-- `n` lookups, one after the other
abbrev pub hops : (ℕ → ℕ) → ℕ → ℕ → ℕ
hops log zero x = x
hops log (suc n) x = log (hops log n x)

module _ (log : ℕ → ℕ) where
  chase-at : (n i : ℕ) (p : ℕ → ℕ) → chase log n i p i ≡ hops log n (p i)
  unfolding chase for_below
  chase-at zero i p = refl
  chase-at (suc n) i p = rw ((==_iff i i).1 refl) (ap log (chase-at n i p))

  chase-other : (n i k : ℕ) (p : ℕ → ℕ) → (k == i) ≡ false → chase log n i p k ≡ p k
  unfolding chase for_below
  chase-other zero i k p off = refl
  chase-other (suc n) i k p off = rw off (chase-other n i k p off)

  -- The loop over the packets, cell by cell.
  loop-cells :
      (n : ℕ) (p : ℕ → ℕ) (k : ℕ)
      → for_below n (λ i q. chase log depth i q) p k
        ≡ (if ltb k n then hops log depth (p k) else p k)
  unfolding for_below
  loop-cells zero p k = ground arith
  loop-cells (suc n) p k = elim (Bool-cases (k == n)) [
    | inl at ↦
        let e = (==_iff k n).0 at in
        let low : ltb k (suc n) ≡ true = ground (arith, e) in
        let off : ltb k n ≡ false = ground (arith, e) in
        rw low (
          subst
            (λ i.
              chase log depth i (for_below n (λ i q. chase log depth i q) p) k
              ≡ hops log depth (p k))
            e
            (chase-at depth k (for_below n (λ i q. chase log depth i q) p)
              ∙ ap (hops log depth) (loop-cells n p k ∙ rw off refl)))
    | inr other ↦
        let same : ltb k (suc n) ≡ ltb k n = ground (arith, other) in
        rw same (
          chase-other depth n k (for_below n (λ i q. chase log depth i q) p) other
          ∙ loop-cells n p k)
  ]

  pub cpu_run-cells :
      (n : ℕ) (p : ℕ → ℕ) (k : ℕ)
      → cpu_run log n p k ≡ (if ltb k n then hops log depth (p k) else p k)
  unfolding cpu_run
  cpu_run-cells n p k = loop-cells n p k

  -- Each cell of the device is as many lookups on as its thread has made.
  abbrev Follows : (ℕ → ℕ) → Device → Type 0
  Follows p s = (i : ℕ) → (s.pkts i ≡ hops log (s.j i) (p i)) × (s.j i ≤ depth)

  step-Follows :
      (num_pkts i : ℕ) (p : ℕ → ℕ) (s : Device)
      → Follows p s
      → Follows p (thread_step log num_pkts i s)
  unfolding thread_step
  step-Follows num_pkts i p s f = elim (Bool-cases (ltb i num_pkts && ltb (s.j i) depth)) [
    | inr stop ↦ rw stop f
    | inl go ↦ rw go (λ k. elim (Bool-cases (k == i)) [
      | inl at ↦
          let e = (==_iff k i).0 at in
          rw at (ap log ((f i).0 ∙ ap (λ n. hops log (s.j i) (p n)) (sym e)), ground (arith, go))
      | inr off ↦ rw off (f k)
    ])
  ]

  run-Follows :
      (num_pkts : ℕ) (schedule : List ℕ) (p : ℕ → ℕ) (s : Device)
      → Follows p s
      → Follows p (kernel_run log num_pkts schedule s)
  unfolding kernel_run
  run-Follows num_pkts [] p s f = f
  run-Follows num_pkts (i ∷ schedule) p s f =
      run-Follows num_pkts schedule p (thread_step log num_pkts i s) (step-Follows num_pkts i p s f)

  agree-cells : (n : ℕ) (a b : ℕ → ℕ) → ((i : ℕ) → i < n → a i ≡ b i) → agree n a b ≡ true
  unfolding agree
  agree-cells zero a b h = refl
  agree-cells (suc n) a b h =
      rw (agree-cells n a b (λ i p. h i (omega (arith, p))))
        ((==_iff (a n) (b n)).1 (h n (omega arith)))

  -- In whatever order the threads of the kernel step, when all that are launched have ended, the
  -- verification of `main` passes: the packets from the device are those from the processor, each
  -- `depth` lookups behind its start.
  pub agree-kernel_run :
      (num_pkts : ℕ) (schedule : List ℕ) (pkts : ℕ → ℕ)
      → Synchronized num_pkts (kernel_run log num_pkts schedule (copied pkts))
      → (agree num_pkts
            (cpu_run log num_pkts pkts)
            (kernel_run log num_pkts schedule (copied pkts)).pkts
          ≡ true)
        × ((i : ℕ) → i < num_pkts → cpu_run log num_pkts pkts i ≡ hops log depth (pkts i))
  unfolding cpu_run
  agree-kernel_run num_pkts schedule pkts all =
      (agree-cells num_pkts _ _ (λ i h. on_cpu i h ∙ sym (on_device i h)), on_cpu)
    where
      on_cpu : (i : ℕ) → i < num_pkts → cpu_run log num_pkts pkts i ≡ hops log depth (pkts i)
      on_cpu i h =
          let low : ltb i num_pkts ≡ true = ground (arith, h) in
          loop-cells num_pkts pkts i ∙ rw low refl

      on_device :
          (i : ℕ)
          → i < num_pkts
          → (kernel_run log num_pkts schedule (copied pkts)).pkts i ≡ hops log depth (pkts i)
      on_device i h =
          let (e, most) =
            run-Follows num_pkts schedule pkts (copied pkts) (λ k. (refl, omega arith)) i in
          let full : (kernel_run log num_pkts schedule (copied pkts)).j i ≡ depth =
            omega (arith, most, all i (omega (arith, h)) h) in
          e ∙ ap (λ n. hops log n (pkts i)) full
