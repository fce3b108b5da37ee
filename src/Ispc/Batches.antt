-- ===== src/Ispc/Batches.antt =====
-- The sums of ispc-test/memory-capacity/no-ispc/batching.
use systemish.Base.{
  ℕ, zero, suc, ◌+◌, ◌*◌, ◌/◌, ◌%◌, ◌^◌, ◌<◌, ◌≡◌, refl, ap, ◌∙◌, sym, true, false, ltb, ◌==◌,
  arith, add32, for_below, for_below-sum, for_below-cells, sum_below-plus, sum_below-mod, fill,
  fill-below, sum_below, sum_below-ext, sum_below-zero, minus_one, some, sum_below-add, Host,
  returned,
}
use systemish.Ispc.Lookups.{
  Arrays, Locals, cap, num_lookups, batch_size, batch, batches, total_sum, after_init,
  init_array_batching, main_batching,
}

-- the `k`th lookup
abbrev pub lookup : Arrays → ℕ → ℕ
lookup g k = g.a (g.b k)

-- the sum of the lane `j` over the first `n` batches
abbrev lane : Arrays → ℕ → ℕ → ℕ
lane g n j = sum_below n (λ i. lookup g (i * batch_size + j))

batch-sum :
    (g : Arrays) (i : ℕ) (s : Locals) (j : ℕ)
    → j < batch_size
    → (batch g i s).sum j ≡ add32 (s.sum j) (lookup g (i * batch_size + j))
unfolding batch
batch-sum g i s j h =
    for_below-cells 32 (λ k t. add32 t (lookup g (fill 32 (λ l. i * 32 + l) s.ind k))) s.sum j
    ∙ rw low (ap (λ k. add32 (s.sum j) (lookup g k)) (fill-below (λ l. i * 32 + l) s.ind 32 j h))
  where
    low : ltb j 32 ≡ true
    low = ground arith

batches-lane :
    (g : Arrays) (garbage : ℕ → ℕ) (n j : ℕ)
    → j < batch_size
    → (batches g garbage n).sum j ≡ lane g n j % 2 ^ 32
unfolding batches for_below sum_below
batches-lane g garbage zero j h = refl
batches-lane g garbage (suc n) j h =
    batch-sum g n (batches g garbage n) j h ∙ omega (arith, batches-lane g garbage n j h)

lanes-suc :
    (g : Arrays) (n : ℕ)
    → sum_below 32 (lane g (suc n)) ≡ sum_below 32 (λ j. lane g n j + lookup g (n * 32 + j))
lanes-suc g n = sum_below-ext 32 _ _ (λ j low. more j)
  where
    more : (j : ℕ) → lane g (suc n) j ≡ lane g n j + lookup g (n * 32 + j)
    more j = unfold sum_below in refl

lanes-sum : (g : Arrays) (n : ℕ) → sum_below 32 (lane g n) ≡ sum_below (n * 32) (lookup g)
lanes-sum g zero = sum_below-zero 32 (lane g 0) (λ j low. unfold sum_below in refl) ∙ empty
  where
    empty : 0 ≡ sum_below (0 * 32) (lookup g)
    empty = unfold sum_below in refl
lanes-sum g (suc n) =
    lanes-suc g n
    ∙ sum_below-plus 32 (lane g n) (λ j. lookup g (n * 32 + j))
    ∙ ap (λ t. t + sum_below 32 (λ j. lookup g (n * 32 + j))) (lanes-sum g n)
    ∙ sym (sum_below-add (n * 32) 32 (lookup g))
    ∙ ap (λ k. sum_below k (lookup g)) (omega arith)

-- The total of the batches is that of the lookups one by one, modulo 2 ^ 32, on top of what the
-- uninitialised `total_sum` holds.
pub total_sum-batches :
    (g : Arrays) (garbage : ℕ → ℕ) (n total : ℕ)
    → total < 2 ^ 32
    → total_sum total (batches g garbage n)
      ≡ (total + sum_below (n * batch_size) (lookup g)) % 2 ^ 32
unfolding total_sum
total_sum-batches g garbage n total h =
    for_below-sum 32 (batches g garbage n).sum total h
    ∙ omega (
      arith,
      sum_below-ext 32 (batches g garbage n).sum (λ j. lane g n j % 2 ^ 32)
          (batches-lane g garbage n),
      sum_below-mod 32 (lane g n),
      lanes-sum g n,
    )

-- If the calls of the host succeed, `main` of no-ispc/batching prints, on top of what
-- `total_sum` holds at first, the sum modulo 2 ^ 32 of the values that `rand` gave for the array
-- `A` at the indices that it gave for `B`.
pub main_batching-sum :
    (total : ℕ) (garbage : ℕ → ℕ) (h : Host) {seg mem : ℕ → ℕ}
    → total < 2 ^ 32
    → (h.sid == minus_one) ≡ false
    → h.segment ≡ some seg
    → h.heap ≡ some mem
    → main_batching total garbage h
      ≡ returned ((total + sum_below num_lookups (λ k. h.rand (h.rand (cap + k) % cap))) % 2 ^ 32)
unfolding main_batching
main_batching-sum total garbage h {seg} {mem} small ok at_seg at_mem =
    ap (after_init total garbage) started
    ∙ ap returned (
        total_sum-batches g garbage (num_lookups / batch_size) total small
        ∙ ap (λ t. (total + t) % 2 ^ 32) (sum_below-ext num_lookups (lookup g) _ same))
  where
    g : Arrays
    g = record { a = fill cap h.rand seg; b = fill num_lookups (λ i. h.rand (cap + i) % cap) mem }

    started : init_array_batching h ≡ returned g
    started = unfold init_array_batching in rw (ok, at_seg, at_mem)

    same : (k : ℕ) → k < num_lookups → lookup g k ≡ h.rand (h.rand (cap + k) % cap)
    same k low =
        ap (fill cap h.rand seg) (fill-below (λ i. h.rand (cap + i) % cap) mem num_lookups k low)
        ∙ fill-below h.rand seg cap (h.rand (cap + k) % cap) (omega arith)
