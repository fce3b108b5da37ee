-- ===== src/Examples/DsQueue.antt =====
-- DS/queue at concrete inputs.
use systemish.Base.{
  ℕ, ◌+◌, ◌*◌, ◌≡◌, ◌==◌, refl, arith, if◌then◌else◌, Option, some, none, [], ◌∷◌, ◌++◌,
}
use systemish.DsQueue.Commands.{
  Address, Memory, Result, qnode, finished, fetch, assert, set_next, free,
}
use systemish.DsQueue.Chain.{Cells}
use systemish.DsQueue.{Queue, add, remove, free_queue, size, init, main, link, advance}
use systemish.DsQueue.Fifo.{Ends, IsQueue, KeepsOthers, Removes, add-IsQueue, remove-Removes}
use systemish.DsQueue.Free.{Freed, free_queue-Freed}

-- A queue of the values 5 and 6 at the addresses 8 and 24.
abbrev cells : Cells
cells = (8, 5) ∷ (24, 6) ∷ []

abbrev memory : Memory
memory a = if a == 8 then some (qnode 5 24) else if a == 24 then some (qnode 6 0) else none

abbrev queue : Queue
queue = record { head = 8; tail = 24; count = 2 }

queue-IsQueue : IsQueue memory queue cells
queue-IsQueue = record {
  head = refl;
  tail = refl;
  count = refl;
  short = omega arith;
  owns = ((λ e. omega (arith, e)), refl, refl, ((λ e. omega (arith, e)), refl, refl, tt));
}

add-IsQueue_example :
    Ends
      (λ q' g. IsQueue g q' (cells ++ (16, 7) ∷ []) × KeepsOthers cells 16 memory g)
      (add 16 queue 7 memory)
add-IsQueue_example =
    add-IsQueue cells memory queue 16 7 queue-IsQueue (λ e. omega (arith, e)) refl (omega arith)

remove-Removes_example : Removes memory queue cells
remove-Removes_example = remove-Removes cells memory queue queue-IsQueue

free_queue-Freed_example :
    Ends (λ q' g. IsQueue g q' [] × Freed cells memory g) (free_queue queue memory)
free_queue-Freed_example = free_queue-Freed cells memory queue queue-IsQueue

abbrev fresh : ℕ → Address
fresh i = 8 * i + 8

abbrev result_of : Result ℕ → Option ℕ
result_of (finished r g) = some r
result_of _ = none

-- DS/queue/main.c passes its assertions on a memory where no address is in use.
main_run : result_of (main fresh queue (λ a. none)) ≡ some 0
unfolding main add remove link advance assert init size fetch set_next free
main_run = refl
