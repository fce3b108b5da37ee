-- ===== src/Gpu/Interleaved.antt =====
-- `cpu_run` of gpu/randMem/randMem.cu as it is compiled with interleaving: eight packets at a time.
use systemish.Base.{
  ℕ, zero, suc, ◌+◌, ◌*◌, ◌/◌, ◌≡◌, refl, ap, sym, ◌∙◌, ltb, leb, ◌==◌, ==_iff, ◌&&◌, if◌then◌else◌,
  true, false, Bool-cases, inl, inr, update, for_below, fun_ext, arith,
}
use mathlib.Core.Path.{subst}
use systemish.Gpu.RandMem.{depth, hops, cpu_run, cpu_run-cells}

-- `pkts[q] = log[pkts[q]]`
abbrev pub look_up : (ℕ → ℕ) → ℕ → (ℕ → ℕ) → ℕ → ℕ
look_up log q pkts = update pkts q (log (pkts q))

-- The body of the inner loop.
unfoldable pub eight : (ℕ → ℕ) → ℕ → (ℕ → ℕ) → ℕ → ℕ
eight log i pkts = look_up log (i + 7) (
    look_up log (i + 6) (
      look_up log (i + 5) (
        look_up log (i + 4)
          (look_up log (i + 3) (look_up log (i + 2) (look_up log (i + 1) (look_up log i pkts)))))))

unfoldable pub chase_eight : (ℕ → ℕ) → ℕ → ℕ → (ℕ → ℕ) → ℕ → ℕ
unfolding eight
chase_eight log n i pkts = for_below n (λ j p. eight log i p) pkts

-- The loop steps by 8 while it is below `num_pkts`.
unfoldable pub cpu_run_interleaved : (ℕ → ℕ) → ℕ → (ℕ → ℕ) → ℕ → ℕ
unfolding chase_eight
cpu_run_interleaved log num_pkts pkts =
    for_below ((num_pkts + 7) / 8) (λ b p. chase_eight log depth (8 * b) p) pkts

module _ (log : ℕ → ℕ) where
  -- The first `n` cells from `i` on have been looked up.
  abbrev Looked : ℕ → ℕ → (ℕ → ℕ) → (ℕ → ℕ) → Type 0
  Looked i n p q = (k : ℕ) → q k ≡ (if leb i k && ltb k (i + n) then log (p k) else p k)

  look_up-Looked :
      (i n : ℕ) (p q : ℕ → ℕ) → Looked i n p q → Looked i (suc n) p (look_up log (i + n) q)
  look_up-Looked i n p q h k = elim (Bool-cases (k == i + n)) [
    | inl at ↦
        let e = (==_iff k (i + n)).0 at in
        let low : leb i k && ltb k (i + suc n) ≡ true = ground (arith, e) in
        let off : leb i (i + n) && ltb (i + n) (i + n) ≡ false = ground arith in
        rw (at, low) (ap log (h (i + n) ∙ rw off refl ∙ ap p (sym e)))
    | inr other ↦
        let same : (leb i k && ltb k (i + suc n)) ≡ (leb i k && ltb k (i + n)) =
          ground (arith, other) in
        rw (other, same) (h k)
  ]

  none-Looked : (i : ℕ) (p : ℕ → ℕ) → Looked i 0 p p
  none-Looked i p k = let off : leb i k && ltb k (i + 0) ≡ false = ground arith in rw off refl

  one-Looked : (i : ℕ) (p : ℕ → ℕ) → Looked i 1 p (look_up log i p)
  one-Looked i p =
      subst (λ m. Looked i 1 p (look_up log m p)) (omega arith)
        (look_up-Looked i 0 p p (none-Looked i p))

  eight-Looked : (i : ℕ) (p : ℕ → ℕ) → Looked i 8 p (eight log i p)
  unfolding eight
  eight-Looked i p = look_up-Looked i 7 p _ (
      look_up-Looked i 6 p _ (
        look_up-Looked i 5 p _ (
          look_up-Looked i 4 p _ (
            look_up-Looked i 3 p _
              (look_up-Looked i 2 p _ (look_up-Looked i 1 p _ (one-Looked i p)))))))

  chase_eight-cells :
      (n i : ℕ) (p : ℕ → ℕ) (k : ℕ)
      → chase_eight log n i p k ≡ (if leb i k && ltb k (i + 8) then hops log n (p k) else p k)
  unfolding chase_eight for_below
  chase_eight-cells zero i p k = elim (Bool-cases (leb i k && ltb k (i + 8))) [
    | inl low ↦ rw low refl
    | inr off ↦ rw off refl
  ]
  chase_eight-cells (suc n) i p k =
      let q : ℕ → ℕ = for_below n (λ j p. eight log i p) p in
      eight-Looked i q k ∙ (elim (Bool-cases (leb i k && ltb k (i + 8))) [
        | inl low ↦ rw low (ap log (chase_eight-cells n i p k ∙ rw low refl))
        | inr off ↦ rw off (chase_eight-cells n i p k ∙ rw off refl)
      ])

  blocks-cells :
      (m : ℕ) (p : ℕ → ℕ) (k : ℕ)
      → for_below m (λ b q. chase_eight log depth (8 * b) q) p k
        ≡ (if ltb k (8 * m) then hops log depth (p k) else p k)
  unfolding for_below
  blocks-cells zero p k = let off : ltb k (8 * 0) ≡ false = ground arith in rw off refl
  blocks-cells (suc m) p k =
      let q : ℕ → ℕ = for_below m (λ b q. chase_eight log depth (8 * b) q) p in
      chase_eight-cells depth (8 * m) q k
      ∙ (elim (Bool-cases (leb (8 * m) k && ltb k (8 * m + 8))) [
        | inl low ↦
            let new : ltb k (8 * suc m) ≡ true = ground (arith, low) in
            let old : ltb k (8 * m) ≡ false = ground (arith, low) in
            rw (low, new) (ap (hops log depth) (blocks-cells m p k ∙ rw old refl))
        | inr off ↦
            let same : ltb k (8 * suc m) ≡ ltb k (8 * m) = ground (arith, off) in
            rw (off, same) (blocks-cells m p k)
      ])

  -- For the numbers of packets that `main` takes, the multiples of 8, `cpu_run` with interleaving
  -- leaves the same packets as without, and none behind them is changed.
  pub cpu_run_interleaved-cpu_run :
      (m : ℕ) (pkts : ℕ → ℕ) → cpu_run_interleaved log (8 * m) pkts ≡ cpu_run log (8 * m) pkts
  unfolding cpu_run_interleaved
  cpu_run_interleaved-cpu_run m pkts =
      let count : (8 * m + 7) / 8 ≡ m = omega arith in
      ap (λ n. for_below n (λ b p. chase_eight log depth (8 * b) p) pkts) count
      ∙ fun_ext (λ k. blocks-cells m pkts k ∙ sym (cpu_run-cells log (8 * m) pkts k))
