-- ===== src/Bench/Prefetch.antt =====
-- prefetch/prefetch.c: the loop with and without prefetching. The prefetch is a hint, but the
-- address that it takes is read from the array `Ind`.
use systemish.Base.{
  ℕ, zero, suc, ◌+◌, ◌-◌, ◌*◌, ◌%◌, ◌^◌, ◌≤◌, ◌<◌, ◌≡◌, ◌≢◌, refl, ap, ◌∙◌, arith, bit_xor, add32,
  for_below, fill, sum_below, for_below-eq, Option, none, some, ◌==◌, ltb, if◌then◌else◌, true,
  false,
}

abbrev pub cap : ℕ
cap = 128 * 1024 * 1024

abbrev pub n_lookups : ℕ
n_lookups = 1024 * 1024

unfoldable pub do_work : ℕ → ℕ
do_work a = for_below 110 (λ i a. bit_xor a i) a

-- `Ind[i]`: `none` outside the array.
unfoldable pub read : (ℕ → ℕ) → ℕ → Option ℕ
read ind i = if ltb i n_lookups then some (ind i) else none

abbrev pub bind : Option ℕ → (ℕ → Option ℕ) → Option ℕ
bind none k = none
bind (some x) k = k x

-- One round with prefetching: unless the index is N - 1, the next index is read.
unfoldable pub round_prefetch : (ℕ → ℕ) → (ℕ → ℕ) → ℕ → ℕ → Option ℕ
unfolding read
round_prefetch a ind i ans = bind (read ind i) λ index.
    let work = some (add32 ans (do_work (a index))) in
    if index == n_lookups - 1 then work else bind (read ind (i + 1)) λ next_index. work

unfoldable pub round_plain : (ℕ → ℕ) → (ℕ → ℕ) → ℕ → ℕ → Option ℕ
unfolding read
round_plain a ind i ans = bind (read ind i) λ index. some (add32 ans (do_work (a index)))

-- The first `n` rounds; `none` if an access was out of range.
unfoldable pub loop : (ℕ → ℕ → Option ℕ) → ℕ → Option ℕ
loop round n = for_below n (λ i ans. bind ans (round i)) (some 0)

-- The answer of `main` for its argument, from the memory that `malloc` returned.
unfoldable pub main : ℕ → (ℕ → ℕ) → (ℕ → ℕ) → (ℕ → ℕ) → Option ℕ
unfolding loop round_prefetch round_plain
main prefetch memory ind_memory rand =
    let a = fill cap (λ i. i) memory in
    let ind = fill n_lookups (λ i. rand i % cap) ind_memory in
    if prefetch == 0
    then loop (round_plain a ind) n_lookups
    else loop (round_prefetch a ind) n_lookups

-- Below the last round the two loops do the same.
round-eq :
    (a ind : ℕ → ℕ) (i ans : ℕ)
    → i + 1 < n_lookups
    → round_prefetch a ind i ans ≡ round_plain a ind i ans
unfolding round_prefetch round_plain
round-eq a ind i ans h = ground arith

round-last :
    (a ind : ℕ → ℕ) (ans : ℕ)
    → ind (n_lookups - 1) ≢ n_lookups - 1
    → round_prefetch a ind (n_lookups - 1) ans ≡ none
unfolding round_prefetch
round-last a ind ans ne = rw off
  where
    off : (ind (n_lookups - 1) == n_lookups - 1) ≡ false
    off = ground (arith, ne)

bind-round :
    (a ind : ℕ → ℕ) (i : ℕ) (t : Option ℕ)
    → i + 1 < n_lookups
    → bind t (round_prefetch a ind i) ≡ bind t (round_plain a ind i)
bind-round a ind i none h = refl
bind-round a ind i (some ans) h = round-eq a ind i ans h

-- For any number of rounds below N, the loops with and without prefetching have one answer.
pub loop_prefetch-loop_plain :
    (a ind : ℕ → ℕ) (n : ℕ)
    → n < n_lookups
    → loop (round_prefetch a ind) n ≡ loop (round_plain a ind) n
unfolding loop
loop_prefetch-loop_plain a ind n h =
    for_below-eq n _ _ (some 0) λ i t low. bind-round a ind i t (omega arith)

-- The first `n` rounds without prefetching, at most N, stay inside `Ind` and add up, modulo
-- 2 ^ 32, the work on the data at the first `n` indices.
pub loop_plain-some :
    (a ind : ℕ → ℕ) (n : ℕ)
    → n ≤ n_lookups
    → loop (round_plain a ind) n ≡ some (sum_below n (λ i. do_work (a (ind i))) % 2 ^ 32)
unfolding loop for_below sum_below
loop_plain-some a ind zero h = refl
loop_plain-some a ind (suc n) h =
    rw (loop_plain-some a ind n (omega arith))
      (plain (sum_below n (λ i. do_work (a (ind i))) % 2 ^ 32) ∙ ap some (omega arith))
  where
    plain : (ans : ℕ) → round_plain a ind n ans ≡ some (add32 ans (do_work (a (ind n))))
    plain ans = unfold round_plain in rw low
      where
        low : ltb n n_lookups ≡ true
        low = ground arith

loop-suc : (round : ℕ → ℕ → Option ℕ) (n : ℕ) → loop round (suc n) ≡ bind (loop round n) (round n)
unfolding loop for_below
loop-suc round n = refl

-- The last round with prefetching reads `Ind[N]`, past the end of the array, unless the last
-- index happens to be N - 1.
pub loop_prefetch-none :
    (a ind : ℕ → ℕ)
    → ind (n_lookups - 1) ≢ n_lookups - 1
    → loop (round_prefetch a ind) n_lookups ≡ none
loop_prefetch-none a ind ne =
    loop-suc (round_prefetch a ind) (n_lookups - 1)
    ∙ ends (loop (round_prefetch a ind) (n_lookups - 1))
  where
    ends : (t : Option ℕ) → bind t (round_prefetch a ind (n_lookups - 1)) ≡ none
    ends none = refl
    ends (some ans) = round-last a ind ans ne
