-- ===== src/SharedMemory/Parts.antt =====
-- The parts of the segment of shared-memory/ after rounds of the server.
use systemish.Base.{
  ℕ, zero, suc, ◌+◌, ◌-◌, ◌*◌, ◌%◌, ◌^◌, ◌≤◌, ◌<◌, ◌≡◌, refl, ap, ◌∙◌, arith, for_below, ltb, ◌==◌,
  if◌then◌else◌, false,
}
use systemish.SharedMemory.{
  num_clients, per_client_cap, all_equal, Server, cleared, index_of, serve, round, rounds,
}

-- The index that the server writes, as long as the counter of the client is not negative.
index_of-part :
    (i cnt : ℕ)
    → i < num_clients
    → cnt < 2 ^ 31
    → index_of i cnt ≡ i * per_client_cap + cnt % per_client_cap
unfolding index_of
index_of-part i cnt hi hc = ground arith

-- In the round `n`, with the first `k` clients served.
record During (n k : ℕ) (s t : Server) : Type 0 where
  at_iter : t.iter ≡ n
  at_cnt : (i : ℕ) → i < 4 → t.shm_cnt i ≡ (if ltb i k then suc n else n)
  written :
      (i j : ℕ)
      → i < 4
      → j < 256
      → t.write_area (256 * i + j) ≡ (
          if ltb i k
          then (if j == n % 256 then all_equal n else s.write_area (256 * i + j))
          else s.write_area (256 * i + j))
  outside : (x : ℕ) → 1024 ≤ x → t.write_area x ≡ s.write_area x

at_slot :
    (k n i j : ℕ)
    → k < 4
    → i < 4
    → j < 256
    → (256 * i + j == k * 256 + n % 256) ≡ (if i == k then j == n % 256 else false)
at_slot k n i j hk hi hj = ground arith

module _ (n k : ℕ) (s t : Server) (small : suc n < 2 ^ 31) (hk : k < 4) (d : During n k s t) where
  cnt : t.shm_cnt k ≡ n
  cnt = ground (arith, d.at_cnt k hk)

  index : index_of k (t.shm_cnt k) ≡ k * 256 + n % 256
  index = ap (index_of k) cnt ∙ index_of-part k n hk (omega arith)

  serve-During : During n (suc k) s (serve k t)
  unfolding serve
  serve-During = record {
    at_iter = d.at_iter;
    at_cnt = λ i h. ground (arith, d.at_cnt i h, d.at_cnt k hk);
    written = λ i j hi hj.
        rw (index, d.at_iter) ground (arith, at_slot k n i j hk hi hj, d.written i j hi hj);
    outside = λ x h. rw (index) ground (arith, d.outside x h);
  }

-- What the slot `j` of each part holds after `n` rounds: the number of the last round that wrote
-- it, which is the largest number below `n` that is `j` modulo 256, and 0 before the first.
abbrev pub latest : ℕ → ℕ → ℕ
latest n j = if ltb j n then n - 1 - (n - 1 - j) % 256 else 0

latest-suc : (n j : ℕ) → j < 256 → (if j == n % 256 then n else latest n j) ≡ latest (suc n) j
latest-suc n j hj = ground arith

-- After `n` rounds.
pub record After (n : ℕ) (s : Server) : Type 0 where
  pub at_iter : s.iter ≡ n
  pub at_cnt : (i : ℕ) → i < 4 → s.shm_cnt i ≡ n
  pub slots : (i j : ℕ) → i < 4 → j < 256 → s.write_area (256 * i + j) ≡ all_equal (latest n j)
  pub outside : (x : ℕ) → 1024 ≤ x → s.write_area x ≡ all_equal 0

After-During : (n : ℕ) (s : Server) → After n s → During n 0 s s
After-During n s a = record {
  at_iter = a.at_iter;
  at_cnt = λ i h. ground (arith, a.at_cnt i h);
  written = λ i j hi hj. ground arith;
  outside = λ x h. refl;
}

serve_all :
    (n k : ℕ) (s : Server) → suc n < 2 ^ 31 → k ≤ 4 → After n s → During n k s (for_below k serve s)
unfolding for_below
serve_all n zero s small h a = After-During n s a
serve_all n (suc k) s small h a =
    serve-During n k s (for_below k serve s) small (omega arith)
      (serve_all n k s small (omega arith) a)

round-After : (n : ℕ) (s : Server) → suc n < 2 ^ 31 → After n s → After (suc n) (round s)
unfolding round
round-After n s small a = record {
  at_iter = rw (d.at_iter) ground arith;
  at_cnt = λ i h. ground (arith, d.at_cnt i h);
  slots = λ i j hi hj. ground (arith, d.written i j hi hj, a.slots i j hi hj, latest-suc n j hj);
  outside = λ x h. d.outside x h ∙ a.outside x h;
}
  where
    d : During n 4 s (for_below num_clients serve s)
    d = serve_all n 4 s small (omega arith) a

cleared-After : After 0 cleared
cleared-After = record {
  at_iter = refl;
  at_cnt = λ i h. refl;
  slots = λ i j hi hj. ground arith;
  outside = λ x h. refl;
}

-- After `n` rounds of the server, fewer than 2 ^ 31, each of the four counters is `n`, slot `j` of
-- each of the four parts holds a record whose fields all are the number of the last round that
-- wrote it, 0 if none did, and nothing past the segment has changed.
pub rounds-After : (n : ℕ) → n < 2 ^ 31 → After n (rounds n)
unfolding rounds for_below
rounds-After zero small = cleared-After
rounds-After (suc n) small = round-After n (rounds n) small (rounds-After n (omega arith))
