-- ===== src/Masstree.antt =====
-- masstree-example/index: an index of numbers by numbers over Masstree, and the program that tests
-- it. Masstree itself is a parameter: a state with its operations on strings of bytes. An operation
-- of the index is one step, since Masstree's are atomic; timestamps are left out.
pub mod Order
pub mod Strings
pub mod Gets
pub mod Scan
pub mod Sums
pub mod Threads
use systemish.Base.{
  ℕ, zero, suc, ◌+◌, ◌-◌, ◌*◌, ◌/◌, ◌%◌, ◌^◌, ◌<◌, ◌≡◌, ◌≢◌, ◌==◌, ltb, leb, if◌then◌else◌, List,
  [], ◌∷◌, Option, some, none, for_below,
}

-- The operations on a table. A scan gives the values that it passes to `visit_value`, from a key on.
pub record Table (S : Type 0) : Type 0 where
  pub initial : S
  pub insert : List ℕ → ℕ → S → S
  pub find : List ℕ → S → Option ℕ
  pub scan : List ℕ → S → List ℕ

-- What a table promises: it is a map.
pub record IsTable {S : Type 0} (t : Table S) : Type 0 where
  pub find_initial : (k : List ℕ) → t.find k t.initial ≡ none
  pub find_same : (k : List ℕ) (v : ℕ) (s : S) → t.find k (t.insert k v s) ≡ some v
  pub find_other :
      (k k' : List ℕ) (v : ℕ) (s : S) → k ≢ k' → t.find k' (t.insert k v s) ≡ t.find k' s

-- The eight bytes of a `size_t` in memory, the lowest first.
unfoldable pub bytes : ℕ → List ℕ
bytes x =
    x % 256
    ∷ x / 256 % 256
    ∷ x / 256 ^ 2 % 256
    ∷ x / 256 ^ 3 % 256
    ∷ x / 256 ^ 4 % 256
    ∷ x / 256 ^ 5 % 256
    ∷ x / 256 ^ 6 % 256
    ∷ x / 256 ^ 7 % 256
    ∷ []

-- `__bswap_64`
unfoldable pub swap_endian : ℕ → ℕ
swap_endian x =
    x % 256 * 256 ^ 7
    + x / 256 % 256 * 256 ^ 6
    + x / 256 ^ 2 % 256 * 256 ^ 5
    + x / 256 ^ 3 % 256 * 256 ^ 4
    + x / 256 ^ 4 % 256 * 256 ^ 3
    + x / 256 ^ 5 % 256 * 256 ^ 2
    + x / 256 ^ 6 % 256 * 256
    + x / 256 ^ 7 % 256

-- `key_str`
unfoldable pub key_str : ℕ → List ℕ
unfolding bytes swap_endian
key_str key = bytes (swap_endian key)

-- `scanner_t`, and its `visit_value` for the rows that `scan` passes to it.
pub record Scanner : Type 0 where
  pub range : ℕ
  pub range_sum : ℕ

unfoldable pub visit : List ℕ → Scanner → Scanner
visit [] s = s
visit (value ∷ rows) s =
    let s' : Scanner = record {
      range_sum = (s.range_sum + value) % 2 ^ 64;
      range = (s.range + 2 ^ 64 - 1) % 2 ^ 64;
    } in
    let next = visit rows s' in if ltb 0 s'.range then next else s'

module _ {S : Type 0} (t : Table S) where
  unfoldable pub put : ℕ → ℕ → S → S
  unfolding key_str
  put key value s = t.insert (key_str key) value s

  -- `get`: none if the key is not found.
  unfoldable pub get : ℕ → S → Option ℕ
  unfolding key_str
  get key s = t.find (key_str key) s

  unfoldable pub sum_in_range : ℕ → ℕ → S → ℕ
  unfolding key_str visit
  sum_in_range cur_key range s =
      if range == 0
      then 0
      else (visit (t.scan (key_str cur_key) s) (record { range = range; range_sum = 0 })).range_sum

  -- The insertions of `main`.
  unfoldable pub insert_keys : ℕ → S
  unfolding put
  insert_keys n = for_below n (λ i s. put i i s) t.initial

-- kNumKeys
abbrev pub num_keys : ℕ
num_keys = 1024 * 1024

-- kNumWorkerThreads
abbrev pub num_workers : ℕ
num_workers = 2

-- `FastRand::next_u32`: the next seed and the number.
unfoldable pub next_seed : ℕ → ℕ
next_seed seed = (seed * 1103515245 + 12345) % 2 ^ 64

abbrev pub u32_of : ℕ → ℕ
u32_of seed = seed / 2 ^ 32
