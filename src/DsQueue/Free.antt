-- ===== src/DsQueue/Free.antt =====
-- The loops of DS/queue, and the queue as an abstract list of values.
use systemish.Base.{
  ℕ, zero, suc, ◌+◌, ◌<◌, ◌≡◌, refl, ◌∙◌, true, false, ◌==◌, none, [], ◌∷◌, arith, if◌then◌else◌,
}
use systemish.DsQueue.Commands.{Address, qnode, Memory, set_at, Result, finished}
use systemish.DsQueue.Chain.{Cells, length, among, first, values, Owns}
use systemish.DsQueue.{Queue, free_loop, free_queue, print_loop, print}
use systemish.DsQueue.Fifo.{Ends, IsQueue, remove-Removes, fetch-finished, ne-null}

-- `g` is `h` less the nodes of `xs`.
abbrev pub Freed : Cells → Memory → Memory → Type 0
Freed xs h g = (a : Address) → g a ≡ (if among a xs then none else h a)

free_loop-Freed :
    (fuel : ℕ) (xs : Cells) (h : Memory) (q : Queue)
    → IsQueue h q xs
    → length xs < fuel
    → Ends (λ q' g. IsQueue g q' [] × Freed xs h g) (free_loop fuel q h)
unfolding free_loop
free_loop-Freed zero xs h q is enough = absurd (omega arith)
free_loop-Freed (suc fuel) [] h q is enough = rw stop (is, λ a. refl)
  where
    stop : (q.count == 0) ≡ true
    stop = rw is.count
free_loop-Freed (suc fuel) ((p, w) ∷ xs) h q is enough =
    let (q', run, is') = remove-Removes ((p, w) ∷ xs) h q is in
    rw (more, run)
      (weaken (free_loop fuel q' (set_at h p none))
        (free_loop-Freed fuel xs (set_at h p none) q' is' (omega arith)))
  where
    more : (q.count == 0) ≡ false
    more = ground (arith, is.count)

    weaken :
        (r : Result Queue)
        → Ends (λ q' g. IsQueue g q' [] × Freed xs (set_at h p none) g) r
        → Ends (λ q' g. IsQueue g q' [] × Freed ((p, w) ∷ xs) h g) r
    weaken (finished q' g) (e, gone) = (e, λ a. gone a ∙ ground arith)
    weaken Result.dangling k = k
    weaken Result.aborted k = k
    weaken Result.out_of_fuel k = k

-- `ds_queue_free` ends, leaves an empty queue and frees exactly the nodes of the queue.
pub free_queue-Freed :
    (xs : Cells) (h : Memory) (q : Queue)
    → IsQueue h q xs
    → Ends (λ q' g. IsQueue g q' [] × Freed xs h g) (free_queue q h)
unfolding free_queue
free_queue-Freed xs h q is = free_loop-Freed (q.count + 1) xs h q is (omega (arith, is.count))

print_loop-values :
    (fuel : ℕ) (xs : Cells) (h : Memory)
    → Owns h xs
    → length xs < fuel
    → print_loop fuel (first xs) h ≡ finished (values xs) h
unfolding print_loop
print_loop-values zero xs h o enough = absurd (omega arith)
print_loop-values (suc fuel) [] h o enough = refl
print_loop-values (suc fuel) ((p, w) ∷ xs) h (ne, at, out, o) enough = rw (
  ne-null p ne,
  fetch-finished p h (qnode w (first xs)) ne at,
  print_loop-values fuel xs h o (omega arith),
)

-- `ds_queue_print` ends, prints the values from the oldest on, and changes nothing.
pub print-values :
    (xs : Cells) (h : Memory) (q : Queue) → IsQueue h q xs → print q h ≡ finished (values xs) h
unfolding print
print-values xs h q is =
    rw is.head (print_loop-values (q.count + 1) xs h is.owns (omega (arith, is.count)))
