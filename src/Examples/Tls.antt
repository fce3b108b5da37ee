-- ===== src/Examples/Tls.antt =====
-- thread-local-storage/tls.c at concrete inputs.
use systemish.Base.{◌%◌, ◌^◌, ◌≡◌, refl, some, List, [], ◌∷◌}
use systemish.Tls.Work.{calls, do_op_tls, do_op_no_tls}
use systemish.Tls.Same.{with_vars, calls_tls-calls_no_tls}
use systemish.Tls.Options.{Opt, t, u, Thread, tls, main, parse, in_range, create}

calls_tls-calls_no_tls_example :
    (calls do_op_tls 3 ≡ with_vars (3 % 2 ^ 32) (3 % 2 ^ 32) (calls do_op_no_tls 3))
    × ((calls do_op_no_tls 3).var_1 ≡ 0)
    × ((calls do_op_no_tls 3).var_2 ≡ 0)
calls_tls-calls_no_tls_example = calls_tls-calls_no_tls 3

abbrev two_threads : List Opt
two_threads = t 2 ∷ u 1 ∷ []

abbrev created : List Thread
created = tls 0 ∷ tls 1 ∷ []

main_run : main two_threads ≡ some created
unfolding main parse in_range create
main_run = refl
