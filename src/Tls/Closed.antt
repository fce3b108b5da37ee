-- ===== src/Tls/Closed.antt =====
-- What the arrays of thread-local-storage/tls.c hold after a number of calls.
use systemish.Base.{
  extend, ℕ, zero, suc, ◌+◌, ◌-◌, ◌%◌, ◌^◌, ◌≤◌, ◌<◌, ◌≡◌, refl, ap, ◌∙◌, sym, true, ltb, leb, ◌==◌,
  if◌then◌else◌, Bool-cases, ==_iff, inl, inr, for_below, update, arith,
}
use systemish.Tls.Work.{
  Vars, round, loop, do_op_no_tls, calls, printed, thread_func_no_tls, iters, arr_sz,
}
use systemish.Tls.Same.{calls-suc, calls-zero, calls_tls-calls_no_tls}

-- The arrays after a pass, from those before it.
abbrev next_3 : Vars → ℕ → ℕ
next_3 s i = if leb 2 i then (s.arr_3 i + 1) % 2 ^ 64 else s.arr_3 i

abbrev next_4 : Vars → ℕ → ℕ
next_4 s i = if leb 2 i then (s.arr_4 i + next_3 s (i - 1)) % 2 ^ 32 else s.arr_4 i

abbrev next_5 : Vars → ℕ → ℕ
next_5 s i = if leb 2 i then (s.arr_5 i + extend (next_4 s (i - 2))) % 2 ^ 64 else s.arr_5 i

-- After `n` rounds the cells below `n + 2` are those after the pass, the others as before.
record Pass (s t : Vars) (n : ℕ) : Type 0 where
  at_3 : (i : ℕ) → t.arr_3 i ≡ (if ltb i (n + 2) then next_3 s i else s.arr_3 i)
  at_4 : (i : ℕ) → t.arr_4 i ≡ (if ltb i (n + 2) then next_4 s i else s.arr_4 i)
  at_5 : (i : ℕ) → t.arr_5 i ≡ (if ltb i (n + 2) then next_5 s i else s.arr_5 i)

module _ (s t : Vars) (n : ℕ) (p : Pass s t n) where
  open p use {at_3, at_4, at_5}

  new_3 : (round (n + 2) t).arr_3 (n + 2) ≡ next_3 s (n + 2)
  unfolding round
  new_3 = ground (arith, at_3 (n + 2))

  new_4 : (round (n + 2) t).arr_4 (n + 2) ≡ next_4 s (n + 2)
  unfolding round
  new_4 = ground (arith, at_4 (n + 2), at_3 (n + 2 - 1))

  new_5 : (round (n + 2) t).arr_5 (n + 2) ≡ next_5 s (n + 2)
  unfolding round
  new_5 = ground (arith, at_5 (n + 2), at_4 (n + 2 - 2))

  -- An array that is written at `n + 2` alone.
  grown :
      (old new after : ℕ → ℕ)
      → ((i : ℕ) → after i ≡ (if ltb i (n + 2) then new i else old i))
      → (x : ℕ) → x ≡ new (n + 2)
      → (i : ℕ) → update after (n + 2) x i ≡ (if ltb i (suc n + 2) then new i else old i)
  grown old new after h x e i = elim (Bool-cases (i == n + 2)) [
    | inl at ↦
        let e' = (==_iff i (n + 2)).0 at in
        let low : ltb i (suc n + 2) ≡ true = ground (arith, e') in
        rw (at, low) (e ∙ ap new (sym e'))
    | inr off ↦
        let same : ltb i (suc n + 2) ≡ ltb i (n + 2) = ground (arith, off) in rw (off, same) (h i)
  ]

  here : (f : ℕ → ℕ) (x : ℕ) → update f (n + 2) x (n + 2) ≡ x
  here f x = ground arith

  round-Pass : Pass s (round (n + 2) t) (suc n)
  unfolding round
  round-Pass = record {
    at_3 = grown s.arr_3 (next_3 s) t.arr_3 at_3 _ (sym (here t.arr_3 _) ∙ new_3);
    at_4 = grown s.arr_4 (next_4 s) t.arr_4 at_4 _ (sym (here t.arr_4 _) ∙ new_4);
    at_5 = grown s.arr_5 (next_5 s) t.arr_5 at_5 _ (sym (here t.arr_5 _) ∙ new_5);
  }

rounds-Pass : (s : Vars) (n : ℕ) → Pass s (for_below n (λ k t. round (k + 2) t) s) n
unfolding for_below
rounds-Pass s zero = record {
  at_3 = λ i. ground arith;
  at_4 = λ i. ground arith;
  at_5 = λ i. ground arith;
}
rounds-Pass s (suc n) = round-Pass s (for_below n (λ k t. round (k + 2) t) s) n (rounds-Pass s n)

do_op-Pass : (s : Vars) → Pass s (do_op_no_tls s) 61
unfolding do_op_no_tls loop round
do_op-Pass s = rounds-Pass s 61

-- 1 + … + n
unfoldable pub triangle : ℕ → ℕ
triangle zero = 0
triangle (suc n) = triangle n + suc n

-- the sum of what the cells of `arr_4` hold after the calls 1, …, n
unfoldable pub sum_of_ints : ℕ → ℕ
sum_of_ints zero = 0
sum_of_ints (suc n) = (sum_of_ints n + extend (triangle (suc n) % 2 ^ 32)) % 2 ^ 64

-- After `n` calls.
pub record After (s : Vars) (n : ℕ) : Type 0 where
  pub low_3 : (i : ℕ) → i < 2 → s.arr_3 i ≡ 0
  pub high_3 : (i : ℕ) → 2 ≤ i → i < arr_sz → s.arr_3 i ≡ n
  pub low_4 : (i : ℕ) → i < 3 → s.arr_4 i ≡ 0
  pub high_4 : (i : ℕ) → 3 ≤ i → i < arr_sz → s.arr_4 i ≡ triangle n % 2 ^ 32
  pub low_5 : (i : ℕ) → i < 5 → s.arr_5 i ≡ 0
  pub high_5 : (i : ℕ) → 5 ≤ i → i < arr_sz → s.arr_5 i ≡ sum_of_ints n

module _ (s : Vars) (n : ℕ) (small : n + 1 < 2 ^ 64) (a : After s n) where
  open a use {low_3, high_3, low_4, high_4, low_5, high_5}

  next_3-low : (i : ℕ) → i < 2 → next_3 s i ≡ 0
  next_3-low i h = ground (arith, low_3 i h)

  next_3-high : (i : ℕ) → 2 ≤ i → i < arr_sz → next_3 s i ≡ suc n
  next_3-high i h k = ground (arith, high_3 i h k)

  next_4-low : (i : ℕ) → i < 3 → next_4 s i ≡ 0
  next_4-low i h = ground (arith, low_4 i h, next_3-low (i - 1))

  next_4-high : (i : ℕ) → 3 ≤ i → i < arr_sz → next_4 s i ≡ triangle (suc n) % 2 ^ 32
  unfolding triangle
  next_4-high i h k = ground (arith, high_4 i h k, next_3-high (i - 1) (omega arith) (omega arith))

  next_5-low : (i : ℕ) → i < 5 → next_5 s i ≡ 0
  next_5-low i h = elim (Bool-cases (leb 2 i)) [
    | inl two ↦ rw (two, low_5 i h, next_4-low (i - 2) (omega arith))
    | inr below ↦ rw below (low_5 i h)
  ]

  next_5-high : (i : ℕ) → 5 ≤ i → i < arr_sz → next_5 s i ≡ sum_of_ints (suc n)
  unfolding sum_of_ints
  next_5-high i h k =
      let two : leb 2 i ≡ true = ground arith in
      rw (two, high_5 i h k, next_4-high (i - 2) (omega arith) (omega arith))

  -- The pass covers all cells below the end of the arrays.
  covered :
      (old new : ℕ → ℕ) (i : ℕ) → i < arr_sz → (if ltb i (61 + 2) then new i else old i) ≡ new i
  covered old new i h = let low : ltb i (61 + 2) ≡ true = ground arith in rw low

  do_op-After : After (do_op_no_tls s) (suc n)
  do_op-After = record {
    low_3 = λ i h. at_3 i ∙ covered s.arr_3 (next_3 s) i (omega arith) ∙ next_3-low i h;
    high_3 = λ i h k. at_3 i ∙ covered s.arr_3 (next_3 s) i k ∙ next_3-high i h k;
    low_4 = λ i h. at_4 i ∙ covered s.arr_4 (next_4 s) i (omega arith) ∙ next_4-low i h;
    high_4 = λ i h k. at_4 i ∙ covered s.arr_4 (next_4 s) i k ∙ next_4-high i h k;
    low_5 = λ i h. at_5 i ∙ covered s.arr_5 (next_5 s) i (omega arith) ∙ next_5-low i h;
    high_5 = λ i h k. at_5 i ∙ covered s.arr_5 (next_5 s) i k ∙ next_5-high i h k;
  }
    where
      open (do_op-Pass s) use {at_3, at_4, at_5}

-- After `n` calls of `do_op_no_tls`, fewer than 2 ^ 64, the cells of `arr_3` from index 2 on hold
-- `n`, those of `arr_4` from 3 on the `int` of 1 + … + n, those of `arr_5` from 5 on the sum of
-- these, and all cells below are 0.
pub calls-After : (n : ℕ) → n < 2 ^ 64 → After (calls do_op_no_tls n) n
unfolding triangle sum_of_ints
calls-After zero h = rw (calls-zero do_op_no_tls) (record {
  low_3 = λ i h. refl;
  high_3 = λ i h k. refl;
  low_4 = λ i h. refl;
  high_4 = λ i h k. refl;
  low_5 = λ i h. refl;
  high_5 = λ i h k. refl;
})
calls-After (suc n) h =
    rw (calls-suc do_op_no_tls n)
      (do_op-After (calls do_op_no_tls n) n (omega arith) (calls-After n (omega arith)))

-- The thread without thread-local storage prints the last cell of `arr_5` alone: its two plain
-- variables add nothing.
pub thread_func_no_tls_lem : thread_func_no_tls ≡ sum_of_ints iters % 2 ^ 64
unfolding thread_func_no_tls printed
thread_func_no_tls_lem =
    let (e, z1, z2) = calls_tls-calls_no_tls iters in
    rw (z1, z2, (calls-After iters (omega arith)).high_5 62 (omega arith) (omega arith))
      (omega arith)
