-- ===== src/Tls/Work.antt =====
-- The work of one thread of thread-local-storage/tls.c.
use systemish.Base.{ℕ, ◌+◌, ◌-◌, ◌%◌, ◌^◌, update, for_below, add32, extend}

abbrev pub arr_sz : ℕ
arr_sz = 63

abbrev pub iters : ℕ
iters = 20000000

-- The variables of a thread: tls_var_1 and so on, or the locals of thread_func_no_tls.
-- `arr_4` holds `int`, `arr_3` and `arr_5` hold `long long`.
pub record Vars : Type 0 where
  pub var_1 : ℕ
  pub var_2 : ℕ
  pub arr_3 : ℕ → ℕ
  pub arr_4 : ℕ → ℕ
  pub arr_5 : ℕ → ℕ

-- The body of the loop over `j`.
unfoldable pub round : ℕ → Vars → Vars
round j s =
    let arr_3 = update s.arr_3 j ((s.arr_3 j + 1) % 2 ^ 64) in
    let arr_4 = update s.arr_4 j ((s.arr_4 j + arr_3 (j - 1)) % 2 ^ 32) in
    let arr_5 = update s.arr_5 j ((s.arr_5 j + extend (arr_4 (j - 2))) % 2 ^ 64) in
    record s { arr_3 = arr_3; arr_4 = arr_4; arr_5 = arr_5 }

-- `for (j = 2; j < ARR_SZ; j++)`
unfoldable pub loop : Vars → Vars
loop s = for_below (arr_sz - 2) (λ k t. round (k + 2) t) s

unfoldable pub do_op_tls : Vars → Vars
do_op_tls s = loop (record s { var_1 = add32 s.var_1 1; var_2 = add32 s.var_2 1 })

-- The body of the loop over `j` in `do_op_no_tls`.
unfoldable pub round_no_tls : ℕ → Vars → Vars
round_no_tls j s =
    let arr_3 = update s.arr_3 j ((s.arr_3 j + 1) % 2 ^ 64) in
    let arr_4 = update s.arr_4 j ((s.arr_4 j + arr_3 (j - 1)) % 2 ^ 32) in
    let arr_5 = update s.arr_5 j ((s.arr_5 j + extend (arr_4 (j - 2))) % 2 ^ 64) in
    record { var_1 = s.var_1; var_2 = s.var_2; arr_3 = arr_3; arr_4 = arr_4; arr_5 = arr_5 }

-- `*var_1++` moves the pointer, which is local, and leaves the variable as it is.
unfoldable pub do_op_no_tls : Vars → Vars
unfolding round_no_tls
do_op_no_tls s = for_below (arr_sz - 2) (λ k t. round_no_tls (k + 2) t) s

-- After the assignments and calls of `memset` at the start of both thread functions.
abbrev pub cleared : Vars
cleared = record { var_1 = 0; var_2 = 0; arr_3 = λ i. 0; arr_4 = λ i. 0; arr_5 = λ i. 0 }

-- The sum that a thread prints: an addition of `int` and one of `long long`.
unfoldable pub printed : Vars → ℕ
printed s = (extend (add32 s.var_1 s.var_2) + s.arr_5 (arr_sz - 1)) % 2 ^ 64

-- The variables after `n` calls.
unfoldable pub calls : (Vars → Vars) → ℕ → Vars
calls op n = for_below n (λ i s. op s) cleared

unfoldable pub thread_func_tls : ℕ
thread_func_tls = printed (calls do_op_tls iters)

unfoldable pub thread_func_no_tls : ℕ
thread_func_no_tls = printed (calls do_op_no_tls iters)
