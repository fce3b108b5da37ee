-- ===== src/Tls/Same.antt =====
-- The two versions of the work of thread-local-storage/tls.c side by side.
use systemish.Base.{
  ℕ, zero, suc, ◌+◌, ◌*◌, ◌%◌, ◌^◌, ◌<◌, ◌≡◌, refl, ap, sym, ◌∙◌, add32, for_below, arith,
}
use systemish.Tls.Work.{
  Vars, round, round_no_tls, loop, do_op_tls, do_op_no_tls, cleared, calls, printed,
  thread_func_tls, thread_func_no_tls, iters,
}

-- the variables with other values of the plain ones
abbrev pub with_vars : ℕ → ℕ → Vars → Vars
with_vars a b s = record s { var_1 = a; var_2 = b }

rounds-with_vars :
    (a b : ℕ) (n : ℕ) (s : Vars)
    → for_below n (λ k t. round (k + 2) t) (with_vars a b s)
      ≡ with_vars a b (for_below n (λ k t. round (k + 2) t) s)
unfolding for_below round
rounds-with_vars a b zero s = refl
rounds-with_vars a b (suc n) s = ap (round (n + 2)) (rounds-with_vars a b n s)

-- the loop leaves the plain variables alone
rounds-vars :
    (n : ℕ) (s : Vars)
    → ((for_below n (λ k t. round (k + 2) t) s).var_1 ≡ s.var_1)
      × ((for_below n (λ k t. round (k + 2) t) s).var_2 ≡ s.var_2)
unfolding for_below round
rounds-vars zero s = (refl, refl)
rounds-vars (suc n) s = rounds-vars n s

-- The loops of both versions do the same.
pub do_op_no_tls-loop : (s : Vars) → do_op_no_tls s ≡ loop s
unfolding do_op_no_tls loop round round_no_tls
do_op_no_tls-loop s = refl

do_op_tls-with_vars :
    (a b : ℕ) (s : Vars)
    → do_op_tls (with_vars a b s) ≡ with_vars (add32 a 1) (add32 b 1) (do_op_no_tls s)
unfolding do_op_tls loop
do_op_tls-with_vars a b s =
    rounds-with_vars (add32 a 1) (add32 b 1) 61 s
    ∙ ap (with_vars (add32 a 1) (add32 b 1)) (sym (do_op_no_tls-loop s))

do_op_no_tls-vars :
    (s : Vars) → ((do_op_no_tls s).var_1 ≡ s.var_1) × ((do_op_no_tls s).var_2 ≡ s.var_2)
unfolding loop
do_op_no_tls-vars s = rw (do_op_no_tls-loop s) (rounds-vars 61 s)

pub calls-suc : (op : Vars → Vars) (n : ℕ) → calls op (suc n) ≡ op (calls op n)
unfolding calls for_below
calls-suc op n = refl

pub calls-zero : (op : Vars → Vars) → calls op 0 ≡ cleared
unfolding calls for_below
calls-zero op = refl

-- After any number of calls the arrays of both versions are equal; the thread-local variables
-- count the calls, modulo 2 ^ 32, and those behind the pointers are still 0.
pub calls_tls-calls_no_tls :
    (n : ℕ)
    → (calls do_op_tls n ≡ with_vars (n % 2 ^ 32) (n % 2 ^ 32) (calls do_op_no_tls n))
      × ((calls do_op_no_tls n).var_1 ≡ 0)
      × ((calls do_op_no_tls n).var_2 ≡ 0)
calls_tls-calls_no_tls zero = rw (calls-zero do_op_tls, calls-zero do_op_no_tls) (refl, refl, refl)
calls_tls-calls_no_tls (suc n) =
    let (e, z1, z2) = calls_tls-calls_no_tls n in
    let (v1, v2) = do_op_no_tls-vars (calls do_op_no_tls n) in
    rw (calls-suc do_op_tls n, calls-suc do_op_no_tls n)
      (
        ap do_op_tls e
            ∙ do_op_tls-with_vars (n % 2 ^ 32) (n % 2 ^ 32) (calls do_op_no_tls n)
            ∙ ap (λ k. with_vars k k (do_op_no_tls (calls do_op_no_tls n))) (omega arith),
        v1 ∙ z1,
        v2 ∙ z2,
      )

printed-with_vars :
    (n : ℕ) (s : Vars)
    → n < 2 ^ 30
    → s.var_1 ≡ 0
    → s.var_2 ≡ 0
    → printed (with_vars n n s) ≡ (printed s + 2 * n) % 2 ^ 64
unfolding printed
printed-with_vars n s h z1 z2 = ground (arith, z1, z2)

-- The sums that the two kinds of thread print differ by twice the number of iterations.
pub thread_func_tls-thread_func_no_tls : thread_func_tls ≡ (thread_func_no_tls + 2 * iters) % 2 ^ 64
unfolding thread_func_tls thread_func_no_tls
thread_func_tls-thread_func_no_tls =
    let (e, z1, z2) = calls_tls-calls_no_tls iters in
    ap printed e ∙ printed-with_vars iters (calls do_op_no_tls iters) (omega arith) z1 z2
