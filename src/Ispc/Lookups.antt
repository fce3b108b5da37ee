-- ===== src/Ispc/Lookups.antt =====
-- ispc-test/memory-capacity/no-ispc: the arrays of `init_array`, and the lookups of the
-- directories batching and no-batching. The timers print times and are left out.
use systemish.Base.{
  ℕ, ◌+◌, ◌*◌, ◌/◌, ◌%◌, add32, minus_one, ◌==◌, if◌then◌else◌, update, for_below, fill, Host, Exit,
  returned, exited, fault, out_of_fuel, deref,
}

-- CAP and NUM_LOOKUPS of common.h; `& CAP_` is a mask of 27 ones.
abbrev pub cap : ℕ
cap = 134217728

abbrev pub num_lookups : ℕ
num_lookups = 67108864

-- The global arrays.
pub record Arrays : Type 0 where
  pub a : ℕ → ℕ
  pub b : ℕ → ℕ

-- `init_array` of no-ispc/batching/main.c: `rand() & CAP_` for `B`.
unfoldable pub init_array_batching : Host → Exit Arrays
init_array_batching h =
    if h.sid == minus_one
    then exited 0
    else deref h.segment λ seg. deref h.heap λ mem.
      returned
        (record { a = fill cap h.rand seg; b = fill num_lookups (λ i. h.rand (cap + i) % cap) mem })

-- `init_array` of no-ispc/no-batching/main.c: `rand()` for `B`.
unfoldable pub init_array_no_batching : Host → Exit Arrays
init_array_no_batching h =
    if h.sid == minus_one
    then exited 0
    else deref h.segment λ seg. deref h.heap λ mem.
      returned
        (record { a = fill cap h.rand seg; b = fill num_lookups (λ i. h.rand (cap + i)) mem })

abbrev pub batch_size : ℕ
batch_size = 32

-- The local arrays of `main` of batching.
pub record Locals : Type 0 where
  pub sum : ℕ → ℕ
  pub ind : ℕ → ℕ

-- One batch: the indices first (the prefetch is a hint), then the lookups.
unfoldable pub batch : Arrays → ℕ → Locals → Locals
batch g i s =
    let ind = fill batch_size (λ j. i * batch_size + j) s.ind in
    record {
      ind = ind;
      sum = for_below batch_size (λ j sum. update sum j (add32 (sum j) (g.a (g.b (ind j))))) s.sum;
    }

-- The first `n` batches, from cleared sums.
unfoldable pub batches : Arrays → (ℕ → ℕ) → ℕ → Locals
batches g garbage n = for_below n (λ i s. batch g i s) (record { sum = λ j. 0; ind = garbage })

-- `total_sum` is not initialised: `total` is what it holds.
unfoldable pub total_sum : ℕ → Locals → ℕ
total_sum total s = for_below batch_size (λ j t. add32 t (s.sum j)) total

-- `main` after `init_array`.
unfoldable pub after_init : ℕ → (ℕ → ℕ) → Exit Arrays → Exit ℕ
after_init total garbage (returned g) =
    returned (total_sum total (batches g garbage (num_lookups / batch_size)))
after_init total garbage (exited k) = exited k
after_init total garbage fault = fault
after_init total garbage out_of_fuel = out_of_fuel

unfoldable pub main_batching : ℕ → (ℕ → ℕ) → Host → Exit ℕ
unfolding after_init
main_batching total garbage h = after_init total garbage (init_array_batching h)

-- `main` of no-batching: each address depends on the sum so far.
pub record Walk : Type 0 where
  pub total : ℕ
  pub addr : ℕ

unfoldable pub walk : Arrays → ℕ → ℕ → Walk
walk g total n =
    for_below n
      (λ i s.
        let total' = add32 s.total (g.a s.addr) in
        record { total = total'; addr = add32 total' (g.b i) % cap })
      (record { total = total; addr = g.b 0 % cap })

unfoldable pub walk_after : ℕ → Exit Arrays → Exit ℕ
walk_after total (returned g) = returned (walk g total num_lookups).total
walk_after total (exited k) = exited k
walk_after total fault = fault
walk_after total out_of_fuel = out_of_fuel

unfoldable pub main_no_batching : ℕ → Host → Exit ℕ
unfolding walk_after
main_no_batching total h = walk_after total (init_array_no_batching h)
