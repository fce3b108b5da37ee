-- ===== src/Masstree/Gets.antt =====
-- The lookups of masstree-example/index/example.cc, after the insertions of `main`.
use systemish.Base.{
  ℕ, zero, suc, ◌%◌, ◌^◌, ◌<◌, ◌≤◌, ◌≡◌, ◌≢◌, refl, ap, sym, ◌∙◌, ◌==◌, ==_iff, if◌then◌else◌,
  Bool-cases, inl, inr, Option, some, none, for_below, arith,
}
use systemish.Masstree.{Table, IsTable, key_str, put, get, insert_keys, num_keys, next_seed, u32_of}
use systemish.Masstree.Order.{key_str-injective}

-- How the rounds of `get_perf_func` end: not yet, or with one of its exceptions.
pub data Perf : Type 0 where
  running : Perf
  get_failed : ℕ → Perf
  incorrect_value : ℕ → ℕ → Perf

-- The tests behind a lookup, and how the function goes on.
unfoldable pub judge : ℕ → Option ℕ → Perf → Perf
judge rand_key none rest = get_failed rand_key
judge rand_key (some value) rest =
    if value == rand_key then rest else incorrect_value value rand_key

-- `get_perf_func` for a number of rounds, the times left out.
unfoldable pub get_perf_func : {S : Type 0} → Table S → ℕ → ℕ → S → Perf
unfolding next_seed get judge
get_perf_func t zero seed s = running
get_perf_func t (suc n) seed s =
    let rand_key : ℕ = u32_of (next_seed seed) % num_keys in
    judge rand_key (get t rand_key s) (get_perf_func t n (next_seed seed) s)

module _ {S : Type 0} (t : Table S) (law : IsTable t) where
  pub get-put_same : (k v : ℕ) (s : S) → get t k (put t k v s) ≡ some v
  unfolding get put
  get-put_same k v s = law.find_same (key_str k) v s

  pub get-put_other :
      (k k' v : ℕ) (s : S) → k < 2 ^ 64 → k' < 2 ^ 64 → k ≢ k' → get t k' (put t k v s) ≡ get t k' s
  unfolding get put
  get-put_other k k' v s h h' ne =
      law.find_other (key_str k) (key_str k') v s (λ e. ne (key_str-injective k k' h h' e))

  pub get-insert_keys : (n k : ℕ) → n ≤ 2 ^ 64 → k < n → get t k (insert_keys t n) ≡ some k
  unfolding insert_keys for_below
  get-insert_keys zero k h low = absurd (omega (arith, low))
  get-insert_keys (suc n) k h low = elim (Bool-cases (k == n)) [
    | inl at ↦
        let e = (==_iff k n).0 at in
        ap (λ m. get t m (put t n n (for_below n (λ i s. put t i i s) t.initial))) e
        ∙ get-put_same n n (for_below n (λ i s. put t i i s) t.initial)
        ∙ ap some (sym e)
    | inr off ↦
        get-put_other n k n (for_below n (λ i s. put t i i s) t.initial) (omega (arith, h))
          (omega (arith, h, low)) (ground (arith, off))
        ∙ get-insert_keys n k (omega (arith, h)) (ground (arith, low, off))
  ]

  judge-same : (k : ℕ) (r : Option ℕ) → r ≡ some k → judge k r running ≡ running
  unfolding judge
  judge-same k r e = ap (λ x. judge k x running) e ∙ rw ((==_iff k k).1 refl) refl

  perf-from :
      (s : S)
      → ((k : ℕ) → k < num_keys → get t k s ≡ some k)
      → (n seed : ℕ) → get_perf_func t n seed s ≡ running
  unfolding get_perf_func
  perf-from s good zero seed = refl
  perf-from s good (suc n) seed =
      let key : ℕ = u32_of (next_seed seed) % num_keys in
      ap (judge key (get t key s)) (perf-from s good n (next_seed seed))
      ∙ judge-same key (get t key s) (good key (omega arith))

  -- Over a table that is a map, after the insertions of `main`, `get_perf_func` never throws:
  -- whatever the seed is and however many rounds it makes, each key is found with its value.
  pub get_perf_func-running :
      (n seed : ℕ) → get_perf_func t n seed (insert_keys t num_keys) ≡ running
  get_perf_func-running n seed =
      perf-from (insert_keys t num_keys) (λ k h. get-insert_keys num_keys k (omega arith) h) n seed
