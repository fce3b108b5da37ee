-- ===== src/SharedMemory.antt =====
-- shared-memory/: a server that writes records into the parts of a shared segment, one part for
-- each client, and clients that read their own part.
pub mod Parts
use systemish.Base.{
  ℕ, zero, suc, ◌+◌, ◌*◌, ◌/◌, ◌%◌, ◌^◌, add32, srem, update, for_below, ltb, if◌then◌else◌, Option,
  none, some,
}

-- CAPACITY, NUM_CLIENTS and PER_CLIENT_CAP of common.h
abbrev pub capacity : ℕ
capacity = 1024

abbrev pub num_clients : ℕ
num_clients = 4

abbrev pub per_client_cap : ℕ
per_client_cap = capacity / num_clients

-- `struct KV`
pub record Kv : Type 0 where
  pub key : ℕ
  pub value : ℕ
  pub req_num : ℕ
  pub location : ℕ

abbrev pub all_equal : ℕ → Kv
all_equal n = record { key = n; value = n; req_num = n; location = n }

pub record Server : Type 0 where
  pub write_area : ℕ → Kv
  pub shm_cnt : ℕ → ℕ
  pub iter : ℕ

-- The segment after `memset`.
abbrev pub cleared : Server
cleared = record { write_area = λ i. all_equal 0; shm_cnt = λ i. 0; iter = 0 }

-- `shm_lo[i] + (shm_cnt[i] % PER_CLIENT_CAP)`
unfoldable pub index_of : ℕ → ℕ → ℕ
index_of i cnt = add32 (i * per_client_cap) (srem cnt per_client_cap)

-- The four stores for one client; the fence orders the last behind the others.
unfoldable pub serve : ℕ → Server → Server
unfolding index_of
serve i s =
    let index = index_of i (s.shm_cnt i) in
    record s {
      shm_cnt = update s.shm_cnt i (add32 (s.shm_cnt i) 1);
      write_area = update s.write_area index (all_equal s.iter);
    }

-- One round of the endless loop.
unfoldable pub round : Server → Server
round s = let t = for_below num_clients serve s in record t { iter = add32 t.iter 1 }

unfoldable pub rounds : ℕ → Server
rounds n = for_below n (λ _ s. round s) cleared

-- Client `id` in its `i`th round: the index that it reads, and the sum of the four fields there.
unfoldable pub read_index : ℕ → ℕ → ℕ
read_index id i = add32 (id * per_client_cap) (srem i per_client_cap)

unfoldable pub client_sum : (ℕ → Kv) → ℕ → ℕ → ℕ
client_sum area id n =
    for_below n
      (λ i sum.
        let kv = area (read_index id i) in
        (sum + kv.key + kv.value + kv.location + kv.req_num) % 2 ^ 64)
      0
