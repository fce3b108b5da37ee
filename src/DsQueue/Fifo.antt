-- ===== src/DsQueue/Fifo.antt =====
-- The operations of DS/queue against a first-in-first-out list.
use systemish.Base.{
  ℕ, ◌+◌, ◌<◌, ◌^◌, ◌≡◌, ◌≢◌, ◌↔◌, refl, ap, sym, false, ◌==◌, none, some, [], ◌∷◌, ◌++◌, arith,
  sub32, Bool-cases, ==_iff, inl, inr,
}
use systemish.DsQueue.Commands.{
  Address, null, qnode, Qnode, Memory, set_at, Result, finished, aborted, fetch, set_next, free,
}
use systemish.DsQueue.Chain.{
  Cells, length, among, first, last, end_of, Owns, Owns-kept-set_at, not_has_unused, last-holds,
  among-end_of, Owns-append, length-append, end_of-append,
}
use systemish.DsQueue.{Queue, init, add, remove, size, is_empty}

-- The run ends with a result, of which `P` holds.
abbrev pub Ends : {A : Type 0} → (A → Memory → Type 0) → Result A → Type 0
Ends P (finished a h) = P a h
Ends P _ = ⊥

-- The queue stands for the cells `xs`.
pub record IsQueue (h : Memory) (q : Queue) (xs : Cells) : Type 0 where
  pub head : q.head ≡ first xs
  pub tail : q.tail ≡ last xs
  pub count : q.count ≡ length xs
  pub short : length xs < 2 ^ 31
  pub owns : Owns h xs

-- `g` differs from `h` at most at the cells of `xs` and at `p`.
abbrev pub KeepsOthers : Cells → Address → Memory → Memory → Type 0
KeepsOthers xs p h g = (a : Address) → among a xs ≡ false → a ≢ p → g a ≡ h a

pub init-IsQueue : (h : Memory) (q : Queue) → IsQueue h (init q) []
unfolding init
init-IsQueue h q = record { head = refl; tail = refl; count = refl; short = omega arith; owns = tt }

pub ne-null : (p : Address) → p ≢ null → (p == null) ≡ false
ne-null p h = ground arith

pub fetch-finished :
    (p : Address) (h : Memory) (n : Qnode) → p ≢ null → h p ≡ some n → fetch p h ≡ finished n h
unfolding fetch
fetch-finished p h n ne at = rw (ne-null p ne, at)

pub free-finished :
    (p : Address) (h : Memory) (n : Qnode)
    → p ≢ null
    → h p ≡ some n
    → free p h ≡ finished tt (set_at h p none)
unfolding free
free-finished p h n ne at = rw (fetch-finished p h n ne at)

set_next-finished :
    (p s : Address) (h : Memory) (w : ℕ) (r : Address)
    → p ≢ null
    → h p ≡ some (qnode w r)
    → set_next p s h ≡ finished tt (set_at h p (some (qnode w s)))
unfolding set_next
set_next-finished p s h w r ne at = rw (fetch-finished p h (qnode w r) ne at)

add-IsQueue_cells :
    (xs : Cells) (h : Memory) (q : Queue) (fresh v : ℕ)
    → IsQueue h q xs
    → fresh ≢ null
    → h fresh ≡ none
    → length xs + 1 < 2 ^ 31
    → Ends
        (λ q' g. IsQueue g q' (xs ++ (fresh, v) ∷ []) × KeepsOthers xs fresh h g)
        (add fresh q v h)
unfolding add
add-IsQueue_cells [] h q fresh v is ne unused short =
    rw (ne-null fresh ne, is.head)
      (
        record {
          head = refl;
          tail = refl;
          count = omega (arith, is.count);
          short = omega arith;
          owns = (ne, ground arith, refl, tt);
        },
        λ a out off. ground arith,
      )
add-IsQueue_cells ((p, w) ∷ xs) h q fresh v is ne unused short =
    rw
      (
        ne-null fresh ne,
        is.head,
        ne-null p is.owns.0,
        is.tail,
        set_next-finished tail fresh h1 u null at.0 at.2,
      )
      (
        record {
          head = refl;
          tail = sym (end_of-append p xs fresh v);
          count = omega (arith, is.count, length-append xs ((fresh, v) ∷ []));
          short = omega (arith, length-append xs ((fresh, v) ∷ []));
          owns = Owns-append h1 p w xs u fresh v owns1 at.2 ne (ground arith) out;
        },
        same,
      )
  where
    h1 : Memory
    h1 = set_at h fresh (some (qnode v null))

    out : among fresh ((p, w) ∷ xs) ≡ false
    out = not_has_unused h ((p, w) ∷ xs) fresh is.owns unused

    owns1 : Owns h1 ((p, w) ∷ xs)
    owns1 = Owns-kept-set_at h ((p, w) ∷ xs) fresh (some (qnode v null)) is.owns out

    tail : Address
    tail = end_of p xs

    at : (tail ≢ null) × (t : ℕ) × (h1 tail ≡ some (qnode t null))
    at = last-holds h1 p w xs owns1

    u : ℕ
    u = at.1

    same : KeepsOthers ((p, w) ∷ xs) fresh h (set_at h1 tail (some (qnode u fresh)))
    same a off ne_fresh = elim (Bool-cases (a == tail)) [
      | inl is_tail ↦
          cc (off, among-end_of p w xs, ap (λ t. among t ((p, w) ∷ xs)) ((==_iff a tail).0 is_tail))
      | inr other ↦ rw other (ground arith)
    ]

-- Given an address that is not null and not in use, and room below 2 ^ 31 values, `ds_queue_add`
-- puts the value behind the others, and changes the heap at the new node and at the nodes of the
-- queue alone.
pub add-IsQueue :
    (xs : Cells) (h : Memory) (q : Queue) (fresh v : ℕ)
    → IsQueue h q xs
    → fresh ≢ null
    → h fresh ≡ none
    → length xs + 1 < 2 ^ 31
    → Ends
        (λ q' g. IsQueue g q' (xs ++ (fresh, v) ∷ []) × KeepsOthers xs fresh h g)
        (add fresh q v h)
add-IsQueue = add-IsQueue_cells

-- If `malloc` fails, `ds_queue_add` aborts.
pub add-aborts : (q : Queue) (v : ℕ) (h : Memory) → add null q v h ≡ aborted
unfolding add
add-aborts q v h = refl

remove-finished :
    (p w : ℕ) (xs : Cells) (h : Memory) (q : Queue)
    → IsQueue h q ((p, w) ∷ xs)
    → (q' : Queue) × (remove q h ≡ finished (w, q') (set_at h p none))
      × IsQueue (set_at h p none) q' xs
unfolding remove
remove-finished p w [] h q is = (
  record { head = null; tail = null; count = 0 },
  rw (
    is.head,
    ne-null p is.owns.0,
    fetch-finished p h (qnode w null) is.owns.0 is.owns.1,
    is.count,
    free-finished p h (qnode w null) is.owns.0 is.owns.1,
  ),
  record { head = refl; tail = refl; count = refl; short = omega arith; owns = tt },
)
remove-finished p w ((r, u) ∷ xs) h q is = (
  record { head = r; tail = q.tail; count = sub32 q.count 1 },
  rw (
    is.head,
    ne-null p is.owns.0,
    fetch-finished p h (qnode w r) is.owns.0 is.owns.1,
    ne-null r is.owns.3.0,
    free-finished p h (qnode w r) is.owns.0 is.owns.1,
  ),
  record {
    head = refl;
    tail = is.tail;
    count = omega (arith, is.count, is.short);
    short = omega (arith, is.short);
    owns = Owns-kept-set_at h ((r, u) ∷ xs) p none is.owns.3 is.owns.2;
  },
)

-- `ds_queue_remove` on a queue of the cells `xs`.
abbrev pub Removes : Memory → Queue → Cells → Type 0
Removes h q [] = remove q h ≡ aborted
Removes h q ((p, w) ∷ xs) =
    (q' : Queue) × (remove q h ≡ finished (w, q') (set_at h p none))
    × IsQueue (set_at h p none) q' xs

-- From a queue that is not empty `ds_queue_remove` returns the oldest value, frees its node and
-- leaves the rest of the queue; on an empty one it aborts.
pub remove-Removes : (xs : Cells) (h : Memory) (q : Queue) → IsQueue h q xs → Removes h q xs
unfolding remove
remove-Removes [] h q is = rw is.head
remove-Removes ((p, w) ∷ xs) h q is = remove-finished p w xs h q is

-- `ds_queue_size` is the number of values, and `ds_queue_is_empty` tells whether there is none.
pub size-length :
    (xs : Cells) (h : Memory) (q : Queue)
    → IsQueue h q xs
    → (size q ≡ length xs) × ((is_empty q ≡ 1) ↔ (xs ≡ []))
unfolding size is_empty
size-length [] h q is = (is.count, rw is.count ((λ e. refl), λ e. refl))
size-length (x ∷ xs) h q is = (is.count, ((λ e. absurd (ground (arith, is.count, e))), λ e. cc))
