-- ===== src/Goto/Divergence/Bounds.antt =====
-- The buckets and slots that goto/synthetic-divergence reads, and its macro ABS.
use systemish.Base.{
  ℕ, zero, suc, ◌+◌, ◌-◌, ◌*◌, ◌%◌, ◌^◌, ◌≤◌, ◌<◌, ◌≡◌, ◌↔◌, ◌⊎◌, refl, ap, ◌∙◌, sym, inl, inr, ltb,
  ◌==◌, if◌then◌else◌, Bool-cases, srem, add32, update, arith, for_below, for_below_inv,
  for_below-eq, ==_iff,
}
use systemish.Goto.Divergence.Nogoto.{
  slots_per_bkt, num_bs, abs_macro, Best, better, best, slot_arr, hop, chase, process_pkts_in_batch,
  fill_cache, depth,
}

-- `ABS(a - b)` of two bucket numbers: the difference if it is positive, and else the negated sum.
abs_macro_lem :
    (a b : ℕ)
    → a < num_bs
    → b < num_bs
    → abs_macro a b ≡ (if ltb b a then a - b else (2 ^ 32 - (a + b)) % 2 ^ 32)
unfolding abs_macro
abs_macro_lem a b ha hb = ground arith

-- The distance of two numbers.
abbrev pub distance : ℕ → ℕ → ℕ
distance a b = if ltb a b then b - a else a - b

-- Between bucket numbers `a` and `b`, `ABS(a - b)` is their distance exactly when `b` is below
-- `a` or is 0.
pub abs_macro-distance_iff :
    (a b : ℕ) → a < num_bs → b < num_bs → (abs_macro a b ≡ distance a b) ↔ ((b < a) ⊎ (b ≡ 0))
abs_macro-distance_iff a b ha hb = (
  λ e. ground (arith, abs_macro_lem a b ha hb, e),
  λ h. ground (arith, abs_macro_lem a b ha hb, h),
)

better-best_j :
    (arr : ℕ → ℕ) (jumper j : ℕ) (b : Best)
    → j < 16
    → b.best_j < 16
    → (better arr jumper j b).best_j < 16
unfolding better
better-best_j arr jumper j b hj h = ground arith

best_j-lt : (arr : ℕ → ℕ) (jumper : ℕ) → (best arr jumper).best_j < 16
unfolding best
best_j-lt arr jumper =
    for_below_inv (λ _ b. b.best_j < 16) (λ k b. better arr jumper (k + 1) b) 15 _ (omega arith)
      λ i b below h. better-best_j arr jumper (i + 1) b (omega arith) h

better-eq :
    (arr arr' : ℕ → ℕ) (jumper j : ℕ) (b : Best)
    → arr j ≡ arr' j
    → better arr jumper j b ≡ better arr' jumper j b
unfolding better
better-eq arr arr' jumper j b h = rw h

-- The first `n` rounds of the search look at the slots up to `n`.
rounds-eq :
    (arr arr' : ℕ → ℕ) (jumper : ℕ) (b : Best)
    → ((j : ℕ) → j < 16 → arr j ≡ arr' j)
    → (n : ℕ) → n ≤ 15
    → for_below n (λ k. better arr jumper (k + 1)) b
      ≡ for_below n (λ k. better arr' jumper (k + 1)) b
unfolding for_below
rounds-eq arr arr' jumper b same zero h = refl
rounds-eq arr arr' jumper b same (suc n) h =
    ap (better arr jumper (n + 1)) (rounds-eq arr arr' jumper b same n (omega arith))
    ∙ better-eq arr arr' jumper (n + 1) _ (same (n + 1) (omega arith))

best-eq :
    (arr arr' : ℕ → ℕ) (jumper : ℕ)
    → ((j : ℕ) → j < 16 → arr j ≡ arr' j)
    → best arr jumper ≡ best arr' jumper
unfolding best
best-eq arr arr' jumper same =
    rw (same 0 (omega arith)) (rounds-eq arr arr' jumper _ same 15 (omega arith))

-- Every slot of the cache holds a bucket number.
abbrev pub IsClosed : (ℕ → ℕ) → Type 0
IsClosed cache = (k : ℕ) → k < slots_per_bkt * num_bs → cache k < num_bs

abbrev pub SameInside : (ℕ → ℕ) → (ℕ → ℕ) → Type 0
SameInside cache cache' = (k : ℕ) → k < slots_per_bkt * num_bs → cache k ≡ cache' k

module _ (cache cache' : ℕ → ℕ) (closed : IsClosed cache) (same : SameInside cache cache') where
  hop-eq : (j : ℕ) → j < num_bs → hop cache j ≡ hop cache' j
  unfolding hop slot_arr
  hop-eq j h =
      ap (λ (b : Best). cache (16 * j + b.best_j))
        (best-eq _ _ j λ i low. same (16 * j + i) (omega arith))
      ∙ same _ (omega (arith, best_j-lt (slot_arr cache' j) j))

  hop-lt : (j : ℕ) → j < num_bs → hop cache j < num_bs
  unfolding hop slot_arr
  hop-lt j h = closed _ (omega (arith, best_j-lt (slot_arr cache j) j))

  chase-eq : (n j : ℕ) → j < num_bs → chase cache n j ≡ chase cache' n j
  unfolding chase
  chase-eq zero j h = refl
  chase-eq (suc n) j h = rw (← hop-eq j h) (
      ap (λ t. if srem (hop cache j) 16 == 0 then hop cache j else t)
        (chase-eq n (hop cache j) (hop-lt j h)))

-- With packets that name buckets and slots that hold bucket numbers, `process_pkts_in_batch` of
-- goto/synthetic-divergence/nogoto.c returns the same for two memories that agree inside the
-- cache.
pub process-SameInside :
    (cache cache' pkt_lo : ℕ → ℕ) (s : ℕ)
    → IsClosed cache
    → SameInside cache cache'
    → ((i : ℕ) → i < 8 → pkt_lo i < num_bs)
    → process_pkts_in_batch cache pkt_lo s ≡ process_pkts_in_batch cache' pkt_lo s
unfolding process_pkts_in_batch
process-SameInside cache cache' pkt_lo s closed same small =
    for_below-eq 8 _ _ s
      λ i t low. ap (add32 t) (chase-eq cache cache' closed same depth (pkt_lo i) (small i low))

-- The slots of bucket `i` that are written so far, and all those below.
bucket-eq :
    (n m : ℕ) (rand cache : ℕ → ℕ)
    → ((k : ℕ) → k < 16 * n → cache k ≡ rand k % num_bs)
    → (k : ℕ) → k < 16 * n + m
    → for_below m (λ j c. update c (16 * n + j) (rand (16 * n + j) % num_bs)) cache k
      ≡ rand k % num_bs
unfolding for_below
bucket-eq n zero rand cache below k h = below k (omega arith)
bucket-eq n (suc m) rand cache below k h = elim (Bool-cases (k == 16 * n + m)) [
  | inl at ↦ rw at (ap (λ t. rand t % num_bs) (sym ((==_iff k _).0 at)))
  | inr off ↦ rw off (bucket-eq n m rand cache below k (ground (arith, off)))
]

-- After `main` has filled the first `n` buckets, slot `k` of theirs holds the bucket number that
-- call `k` of `rand` gave.
pub fill_cache_lem :
    (n : ℕ) (rand cache : ℕ → ℕ) (k : ℕ)
    → k < slots_per_bkt * n
    → fill_cache n rand cache k ≡ rand k % num_bs
unfolding fill_cache for_below
fill_cache_lem zero rand cache k h = absurd (omega arith)
fill_cache_lem (suc n) rand cache k h =
    bucket-eq n 16 rand (fill_cache n rand cache) (fill_cache_lem n rand cache) k (omega arith)

pub fill_cache-IsClosed : (rand cache : ℕ → ℕ) → IsClosed (fill_cache num_bs rand cache)
fill_cache-IsClosed rand cache k h = omega (arith, fill_cache_lem num_bs rand cache k h)
