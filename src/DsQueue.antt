-- ===== src/DsQueue.antt =====
-- DS/queue: a queue of integers as a linked list with a tail pointer, on an explicit heap.
-- `struct ds_queue_t` lies outside the heap: a function that changes one returns the new value.
-- `malloc` is the argument `fresh`, the address that the call returns.
pub mod Commands
pub mod Chain
pub mod Fifo
pub mod Free
use systemish.Base.{
  ℕ, zero, suc, ◌+◌, ◌-◌, ◌%◌, ◌^◌, ◌==◌, Bool, true, false, if◌then◌else◌, not, add32, sub32, List,
  [], ◌∷◌,
}
use Commands.{
  Address, null, qnode, Memory, Action, Result, out_of_fuel, give, ◌>>=◌, ◌>>◌, put, fetch,
  set_next, free, assert,
}

pub record Queue : Type 0 where
  pub head : Address
  pub tail : Address
  pub count : ℕ

unfoldable pub init : Queue → Queue
init q = record { head = null; tail = null; count = 0 }

-- The new node becomes the head, or the successor of the tail.
unfoldable pub link : Address → Queue → Action Queue
link fresh q =
    if q.head == null
    then give (record { head = fresh; tail = fresh; count = add32 q.count 1 })
    else (set_next q.tail fresh >> give (record q { tail = fresh; count = add32 q.count 1 }))

unfoldable pub add : Address → Queue → ℕ → Action Queue
unfolding link assert
add fresh q value = do assert (not (fresh == null)); put fresh (qnode value null); link fresh q

-- The queue with its head advanced to `next`, after the check of `count`.
unfoldable pub advance : Address → Queue → Action Queue
unfolding assert
advance next q =
    if next == null
    then (assert (q.count == 0) >> give (record q { head = next; tail = null }))
    else give (record q { head = next })

unfoldable pub remove : Queue → Action (ℕ × Queue)
unfolding advance assert
remove q = do
  assert (not (q.head == null))
  old_head ← fetch q.head
  q' ← advance old_head.next (record q { count = sub32 q.count 1 })
  free q.head
  give (old_head.value, q')

unfoldable pub is_empty : Queue → ℕ
is_empty q = if q.count == 0 then 1 else 0

unfoldable pub size : Queue → ℕ
size q = q.count

-- The loops of `ds_queue_free` and `ds_queue_print` run on fuel.
unfoldable pub free_loop : ℕ → Queue → Action Queue
unfolding size
free_loop zero q = λ _. out_of_fuel
free_loop (suc fuel) q =
    if not (size q == 0) then (remove q >>= λ (v, q'). free_loop fuel q') else give q

unfoldable pub free_queue : Queue → Action Queue
free_queue q = free_loop (q.count + 1) q

-- What the loop prints, in order.
unfoldable pub print_loop : ℕ → Address → Action (List ℕ)
print_loop zero t = λ _. out_of_fuel
print_loop (suc fuel) t =
    if t == null
    then give []
    else (fetch t >>= λ n. print_loop fuel n.next >>= λ rest. give (n.value ∷ rest))

unfoldable pub print : Queue → Action (List ℕ)
print q = print_loop (q.count + 1) q.head

-- DS/queue/main.c, with the addresses that `malloc` returns.
unfoldable pub main : (ℕ → Address) → Queue → Action ℕ
main fresh garbage = do
  q ← add (fresh 0) (init garbage) 1
  (a, q) ← remove q
  assert (a == 1)
  q ← add (fresh 1) q 2
  q ← add (fresh 2) q 3
  q ← add (fresh 3) q 4
  q ← add (fresh 4) q 5
  (b, q) ← remove q
  assert (b == 2)
  (c, q) ← remove q
  assert (c == 3)
  assert (size q == 2)
  give 0
