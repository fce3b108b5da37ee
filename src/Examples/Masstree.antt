-- ===== src/Examples/Masstree.antt =====
-- The index of masstree-example over a small map, at concrete inputs.
use systemish.Base.{◌-◌, ℕ, ◌≡◌, ◌≢◌, ltb, update, arith}
use systemish.Examples.Rows.{Sorted, map_table, map_table-IsTable, map_table-IsScan}
use systemish.Masstree.Sums.{sum_of, sum_in_range-insert_keys}
use systemish.Masstree.Scan.{numbers}
use systemish.Masstree.{key_str, put, insert_keys, num_keys, sum_in_range}
use systemish.Masstree.Order.{before, key_str-order}
use systemish.Masstree.Gets.{get_perf_func, running, get_perf_func-running}
use systemish.Masstree.Threads.{
  put_1, put_2, get_1, get_failed, invalid_value, World, Reachable, started, turned, by, write_1,
  write_2, threads-no_throw,
}

key_str-order_example : before (key_str 255) (key_str 256) ≡ ltb 255 256
key_str-order_example = key_str-order 255 256 (omega arith) (omega arith)

get_perf_func-running_example :
    get_perf_func map_table 3 1 (insert_keys map_table num_keys) ≡ running
get_perf_func-running_example = get_perf_func-running map_table map_table-IsTable 3 1

-- Thread 1 has written both keys.
abbrev both_written : World Sorted
both_written = record {
  table = put map_table 2 1 (put map_table 1 1 map_table.initial);
  at = update (update (λ i. put_1 4) 1 (put_2 3)) 1 (get_1 3);
}

abbrev both_reached : Reachable map_table map_table.initial 4 both_written
both_reached = turned (turned started (by 1 (omega arith) write_1)) (by 1 (omega arith) write_2)

abbrev reader : ℕ
reader = 1

threads-no_throw_example :
    (both_written.at reader ≢ get_failed) × ((v : ℕ) → both_written.at reader ≢ invalid_value v)
threads-no_throw_example =
    threads-no_throw map_table map_table-IsTable both_reached reader (omega arith)

-- The last three keys, where the range is longer.
sum_in_range-insert_keys_example :
    sum_in_range map_table 1048573 7 (insert_keys map_table num_keys)
    ≡ sum_of 7 (numbers 1048573 (num_keys - 1048573))
sum_in_range-insert_keys_example =
    sum_in_range-insert_keys map_table map_table-IsTable map_table-IsScan 1048573 7 (omega arith)
      (omega arith)
