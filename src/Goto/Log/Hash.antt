-- ===== src/Goto/Log/Hash.antt =====
-- The packet hash of goto/simple and goto/locals: its size, its low bits, and its two spellings.
use systemish.Base.{
  ℕ, zero, suc, ◌+◌, ◌*◌, ◌/◌, ◌%◌, ◌^◌, ◌≤◌, ◌<◌, ◌≡◌, refl, ap, ◌∙◌, add32, mul32, srem,
  for_below, for_below_inv, min, arith, dec_lt,
}
use systemish.Goto.Log.{hash_mod, hash_and, log_cap, compute}

abbrev step_and : ℕ → ℕ → ℕ
step_and i ret = add32 ret (mul32 i ret % 8)

abbrev step_mod : ℕ → ℕ → ℕ
step_mod i ret = add32 ret (srem (mul32 i ret) 8)

-- After `i` rounds from `a`.
record IsNear (a i ret : ℕ) : Type 0 where
  low : a ≤ ret
  high : ret ≤ a + 7 * min i 8
  even : 8 ≤ i → ret % 8 ≡ 0

-- a multiple of 8 stays a multiple of 8 under a product that wraps
mul-mod_eight : (i ret : ℕ) → ret % 8 ≡ 0 → mul32 i ret % 8 ≡ 0
mul-mod_eight i ret h =
    let e : ret ≡ 8 * (ret / 8) = omega arith in omega (arith, ap (λ (t : ℕ). i * t) e)

small_product : (i ret : ℕ) → i ≤ 7 → ret < 2 ^ 28 → i * ret < 2 ^ 31
small_product i ret h k = grind arith

last_round : (ret : ℕ) → (ret + 7 * ret % 8) % 8 ≡ 0
last_round ret = omega arith

step_and-IsNear : (a i ret : ℕ) → a < log_cap → IsNear a i ret → IsNear a (suc i) (step_and i ret)
step_and-IsNear a i ret small near = elim (dec_lt i 8) [
  | yes early ↦
      let fits = small_product i ret (omega arith) (omega (arith, near.high)) in
      record {
        low = omega (arith, near.low, near.high);
        high = omega (arith, near.low, near.high);
        even = λ h.
            let e : i ≡ 7 = omega arith in
            omega (arith, near.high, last_round ret, ap (λ (t : ℕ). t * ret) e);
      }
  | no late ↦
      let z = near.even (omega arith) in
      let z' = mul-mod_eight i ret z in
      record {
        low = omega (arith, near.low, near.high, z');
        high = omega (arith, near.low, near.high, z');
        even = λ h. omega (arith, near.high, z, z');
      }
]

srem-of_small : (x : ℕ) → x < 2 ^ 31 → srem x 8 ≡ x % 8
srem-of_small x h = ground arith

srem-of_multiple : (x : ℕ) → x < 2 ^ 32 → x % 8 ≡ 0 → srem x 8 ≡ x % 8
srem-of_multiple x h z = ground arith

step_mod-eq : (a i ret : ℕ) → a < log_cap → IsNear a i ret → step_mod i ret ≡ step_and i ret
step_mod-eq a i ret small near = ap (add32 ret) same
  where
    same : srem (mul32 i ret) 8 ≡ mul32 i ret % 8
    same = elim (dec_lt i 8) [
      | yes early ↦
          let fits = small_product i ret (omega arith) (omega (arith, near.high)) in
          srem-of_small (mul32 i ret) (omega arith)
      | no late ↦
          srem-of_multiple (mul32 i ret) (omega arith)
            (mul-mod_eight i ret (near.even (omega arith)))
    ]

rounds-IsNear : (a : ℕ) → a < log_cap → (n : ℕ) → IsNear a n (for_below n step_and a)
rounds-IsNear a small n =
    for_below_inv (IsNear a) step_and n a
      (record { low = omega arith; high = omega arith; even = λ h. absurd (omega arith) })
      λ i t _ near. step_and-IsNear a i t small near

rounds-eq : (a : ℕ) → a < log_cap → (n : ℕ) → for_below n step_mod a ≡ for_below n step_and a
unfolding for_below
rounds-eq a small zero = refl
rounds-eq a small (suc n) =
    ap (step_mod n) (rounds-eq a small n)
    ∙ step_mod-eq a n (for_below n step_and a) small (rounds-IsNear a small n)

-- On every packet that `main` makes, that is, below LOG_CAP, `hash` with `% 8` and `hash`
-- with `& 7` agree.
pub hash_mod-hash_and : (a : ℕ) → a < log_cap → hash_mod a ≡ hash_and a
unfolding hash_mod hash_and
hash_mod-hash_and a small = rounds-eq a small compute

-- For a packet below LOG_CAP, `hash` with `& 7` raises its argument by at most 56 and returns a
-- multiple of 8.
pub hash_and_near :
    (a : ℕ) → a < log_cap → (a ≤ hash_and a) × (hash_and a ≤ a + 56) × (hash_and a % 8 ≡ 0)
unfolding hash_and
hash_and_near a small =
    let near = rounds-IsNear a small compute in
    (near.low, omega (arith, near.high), near.even (omega arith))
