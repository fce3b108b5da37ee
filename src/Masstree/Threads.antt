-- ===== src/Masstree/Threads.antt =====
-- `concurrency_test_func` of masstree-example/index/example.cc: threads that write and read the
-- same two keys, an operation of the index at a time.
use systemish.Base.{
  ℕ, suc, ◌^◌, ◌<◌, ◌≤◌, ◌≡◌, ◌≢◌, ap, sym, ◌∙◌, ◌==◌, ==_iff, Bool-cases, inl, inr, Option, some,
  none, update, arith,
}
use mathlib.Core.Path.{subst}
use systemish.Masstree.{Table, IsTable, put, get, num_workers}
use systemish.Masstree.Gets.{get-put_same, get-put_other}

-- Where a thread stands, with the rounds that are left.
pub data Pc : Type 0 where
  put_1 : ℕ → Pc
  put_2 : ℕ → Pc
  get_1 : ℕ → Pc
  get_2 : ℕ → Pc
  done : Pc
  get_failed : Pc  -- thrown
  invalid_value : ℕ → Pc  -- thrown

module _ {S : Type 0} (t : Table S) where
  -- A step of the thread `worker_id`.
  pub data Move (worker_id : ℕ) (s : S) : Pc → S → Pc → Type 0 where
    finish : Move worker_id s (put_1 0) s done
    write_1 : {n : ℕ} → Move worker_id s (put_1 (suc n)) (put t 1 worker_id s) (put_2 n)
    write_2 : {n : ℕ} → Move worker_id s (put_2 n) (put t 2 worker_id s) (get_1 n)
    read_1 :
        {n v : ℕ} → get t 1 s ≡ some v → v < num_workers → Move worker_id s (get_1 n) s (get_2 n)
    missing_1 : {n : ℕ} → get t 1 s ≡ none → Move worker_id s (get_1 n) s get_failed
    invalid_1 :
        {n v : ℕ}
        → get t 1 s ≡ some v
        → num_workers ≤ v
        → Move worker_id s (get_1 n) s (invalid_value v)
    read_2 :
        {n v : ℕ} → get t 2 s ≡ some v → v < num_workers → Move worker_id s (get_2 n) s (put_1 n)
    missing_2 : {n : ℕ} → get t 2 s ≡ none → Move worker_id s (get_2 n) s get_failed
    invalid_2 :
        {n v : ℕ}
        → get t 2 s ≡ some v
        → num_workers ≤ v
        → Move worker_id s (get_2 n) s (invalid_value v)

-- The table and the threads.
pub record World (S : Type 0) : Type 0 where
  pub table : S
  pub at : ℕ → Pc

module _ {S : Type 0} (t : Table S) where
  pub data Turn (w : World S) : World S → Type 0 where
    by :
        (i : ℕ) {s : S} {p : Pc}
        → i < num_workers
        → Move t i w.table (w.at i) s p
        → Turn w (record { table = s; at = update w.at i p })

  -- The states that the threads reach, from a table and with a number of rounds each.
  pub data Reachable (table : S) (rounds : ℕ) : World S → Type 0 where
    started : Reachable table rounds (record { table = table; at = λ i. put_1 rounds })
    turned : {w u : World S} → Reachable table rounds w → Turn w u → Reachable table rounds u

module _ {S : Type 0} (t : Table S) (law : IsTable t) where
  -- A worker has written the key.
  abbrev Written : ℕ → S → Type 0
  Written k s = (v : ℕ) × (get t k s ≡ some v) × (v < num_workers)

  abbrev Needs : S → Pc → Type 0
  Needs s (put_1 n) = Unit {0}
  Needs s (put_2 n) = Written 1 s
  Needs s (get_1 n) = Written 1 s × Written 2 s
  Needs s (get_2 n) = Written 1 s × Written 2 s
  Needs s done = Unit {0}
  Needs s get_failed = ⊥
  Needs s (invalid_value v) = ⊥

  put-Written :
      (k k' v : ℕ) (s : S)
      → k < 2 ^ 64
      → k' < 2 ^ 64
      → v < num_workers
      → Written k' s
      → Written k' (put t k v s)
  put-Written k k' v s h h' low (x, e, small) = elim (Bool-cases (k == k')) [
    | inl at ↦ (
      v,
      ap (λ n. get t n (put t k v s)) (sym ((==_iff k k').0 at)) ∙ get-put_same t law k v s,
      low,
    )
    | inr off ↦ (x, get-put_other t law k k' v s h h' (ground (arith, off)) ∙ e, small)
  ]

  put-Needs :
      (k v : ℕ) (s : S) (p : Pc) → k < 2 ^ 64 → v < num_workers → Needs s p → Needs (put t k v s) p
  put-Needs k v s (put_1 n) h low w = tt
  put-Needs k v s (put_2 n) h low w = put-Written k 1 v s h (omega arith) low w
  put-Needs k v s (get_1 n) h low (a, b) =
      (put-Written k 1 v s h (omega arith) low a, put-Written k 2 v s h (omega arith) low b)
  put-Needs k v s (get_2 n) h low (a, b) =
      (put-Written k 1 v s h (omega arith) low a, put-Written k 2 v s h (omega arith) low b)
  put-Needs k v s done h low w = tt
  put-Needs k v s get_failed h low w = w
  put-Needs k v s (invalid_value x) h low w = w

  some-inj : {a b : ℕ} → some a ≡ some b → a ≡ b
  some-inj e = cc

  none-some : {a : ℕ} (r : Option ℕ) → r ≡ none → r ≡ some a → ⊥
  none-some r e f = cc

  -- What a move does for its thread, and for the others.
  Move-Needs :
      (i : ℕ) {s s' : S} {p p' : Pc}
      → i < num_workers
      → Move t i s p s' p'
      → Needs s p
      → Needs s' p' × ((q : Pc) → Needs s q → Needs s' q)
  Move-Needs i low finish w = (tt, λ q n. n)
  Move-Needs i {s} low write_1 w =
      ((i, get-put_same t law 1 i s, low), λ q n. put-Needs 1 i s q (omega arith) low n)
  Move-Needs i {s} low write_2 w = (
    (put-Written 2 1 i s (omega arith) (omega arith) low w, (i, get-put_same t law 2 i s, low)),
    λ q n. put-Needs 2 i s q (omega arith) low n,
  )
  Move-Needs i low (read_1 e h) w = (w, λ q n. n)
  Move-Needs i {s} low (missing_1 e) ((v, f, k), b) = absurd (none-some (get t 1 s) e f)
  Move-Needs i low (invalid_1 e h) ((v, f, k), b) =
      absurd (omega (arith, h, k, some-inj (sym f ∙ e)))
  Move-Needs i low (read_2 e h) w = (tt, λ q n. n)
  Move-Needs i {s} low (missing_2 e) (a, (v, f, k)) = absurd (none-some (get t 2 s) e f)
  Move-Needs i low (invalid_2 e h) (a, (v, f, k)) =
      absurd (omega (arith, h, k, some-inj (sym f ∙ e)))

  Reachable-Needs :
      {table : S} {rounds : ℕ} {w : World S}
      → Reachable t table rounds w
      → (i : ℕ) → i < num_workers
      → Needs w.table (w.at i)
  Reachable-Needs started i low = tt
  Reachable-Needs (turned {w} r (by j {s} {p} h mv)) i low =
      let (own, others) = Move-Needs j h mv (Reachable-Needs r j h) in
      elim (Bool-cases (i == j)) [
        | inl at ↦ rw at own
        | inr off ↦ rw off (others (w.at i) (Reachable-Needs r i low))
      ]

  -- Over a table that is a map, whatever it holds at the start, in every state that the threads
  -- reach, with their operations in any order, none has thrown: each finds both keys, with the
  -- number of a worker as the value.
  pub threads-no_throw :
      {table : S} {rounds : ℕ} {w : World S}
      → Reachable t table rounds w
      → (i : ℕ) → i < num_workers
      → (w.at i ≢ get_failed) × ((v : ℕ) → w.at i ≢ invalid_value v)
  threads-no_throw {w} r i low =
      let need = Reachable-Needs r i low in
      ((λ e. subst (Needs w.table) e need), (λ v e. subst (Needs w.table) e need))
