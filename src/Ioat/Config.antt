-- ===== src/Ioat/Config.antt =====
-- The options of ioat/bench.cc.
use systemish.Base.{
  ℕ, ◌+◌, ◌*◌, ◌%◌, ◌^◌, ◌<◌, ◌≤◌, ◌≡◌, ◌≢◌, ◌==◌, ◌||◌, ◌⊎◌, All, if◌then◌else◌, Bool, true, false,
  Bool-cases, inl, inr, List, [], ◌∷◌, is_empty, extend, is_negative, arith,
}
use mathlib.Core.Path.{subst}

-- `struct user_config`. The mask is its text.
pub record UserConfig : Type 0 where
  pub xfer_size_bytes : ℕ
  pub queue_depth : ℕ
  pub time_in_sec : ℕ
  pub verify : Bool
  pub core_mask : List ℕ
  pub ioat_chan_num : ℕ

unfoldable pub construct_user_config : UserConfig
construct_user_config = record {
  xfer_size_bytes = 4096;
  ioat_chan_num = 1;
  queue_depth = 256;
  time_in_sec = 10;
  verify = false;
  core_mask = 48 ∷ 120 ∷ 49 ∷ [];
}

-- What a call of `getopt` gives, with `atoi(optarg)` for an option that takes a number.
pub data Opt : Type 0 where
  o : ℕ → Opt
  n : ℕ → Opt
  q : ℕ → Opt
  t : ℕ → Opt
  c : List ℕ → Opt
  v : Opt
  h : Opt
  other : Opt

-- How `parse_args` ends: the value that it returns, or `exit(0)`.
pub data Parsed : Type 0 where
  accepted : UserConfig → Parsed
  refused : Parsed
  exits : Parsed

-- The test behind the loop.
unfoldable pub is_unset : UserConfig → Bool
is_unset g =
    g.xfer_size_bytes == 0
    || (g.queue_depth == 0
        || (g.time_in_sec == 0 || (is_empty g.core_mask || g.ioat_chan_num == 0)))

-- The loop of `parse_args`; an `int` becomes a `size_t`.
unfoldable pub parse_loop : List Opt → UserConfig → Parsed
unfolding is_unset
parse_loop [] g = if is_unset g then refused else accepted g
parse_loop (o k ∷ opts) g = parse_loop opts (record g { xfer_size_bytes = extend k })
parse_loop (n k ∷ opts) g = parse_loop opts (record g { ioat_chan_num = extend k })
parse_loop (q k ∷ opts) g = parse_loop opts (record g { queue_depth = extend k })
parse_loop (t k ∷ opts) g = parse_loop opts (record g { time_in_sec = extend k })
parse_loop (c mask ∷ opts) g = parse_loop opts (record g { core_mask = mask })
parse_loop (v ∷ opts) g = parse_loop opts (record g { verify = true })
parse_loop (h ∷ opts) g = exits
parse_loop (other ∷ opts) g = refused

unfoldable pub parse_args : List Opt → Parsed
unfolding parse_loop construct_user_config
parse_args opts = parse_loop opts construct_user_config

-- A time that comes from an `int`.
abbrev pub IsTime : ℕ → Type 0
IsTime k = (k < 2 ^ 31) ⊎ ((2 ^ 64 ≤ k + 2 ^ 31) × (k < 2 ^ 64))

-- `atoi` returns an `int`.
abbrev pub FitsInt : Opt → Type 0
FitsInt (o k) = k < 2 ^ 32
FitsInt (n k) = k < 2 ^ 32
FitsInt (q k) = k < 2 ^ 32
FitsInt (t k) = k < 2 ^ 32
FitsInt _ = Unit {0}

set-cases :
    (g r : UserConfig)
    → IsTime g.time_in_sec
    → parse_loop [] g ≡ accepted r
    → IsTime r.time_in_sec × (r.time_in_sec ≢ 0) × (r.xfer_size_bytes ≢ 0) × (r.queue_depth ≢ 0)
unfolding parse_loop
set-cases g r time e = elim (Bool-cases (is_unset g)) [
  | inl bad ↦ absurd (refused-accepted (rw bad at e))
  | inr good ↦
      let same : g ≡ r = accepted-inj (rw good at e) in
      let (set1, set2, set3) = all_set good in
      subst
        (λ u.
          IsTime u.time_in_sec
          × (u.time_in_sec ≢ 0)
          × (u.xfer_size_bytes ≢ 0)
          × (u.queue_depth ≢ 0))
        same (time, set1, set2, set3)
]
  where
    refused-accepted : refused ≡ accepted r → ⊥
    refused-accepted e = cc

    accepted-inj : {a b : UserConfig} → accepted a ≡ accepted b → a ≡ b
    accepted-inj e = cc

    all_set :
        is_unset g ≡ false → (g.time_in_sec ≢ 0) × (g.xfer_size_bytes ≢ 0) × (g.queue_depth ≢ 0)
    all_set e = (λ z. ground (arith, e, z), λ z. ground (arith, e, z), λ z. ground (arith, e, z))

parse_loop-set :
    (opts : List Opt) (g r : UserConfig)
    → All FitsInt opts
    → IsTime g.time_in_sec
    → parse_loop opts g ≡ accepted r
    → IsTime r.time_in_sec × (r.time_in_sec ≢ 0) × (r.xfer_size_bytes ≢ 0) × (r.queue_depth ≢ 0)
unfolding parse_loop
parse_loop-set [] g r fits time e = set-cases g r time e
parse_loop-set (o k ∷ opts) g r (f, fits) time e = parse_loop-set opts _ r fits time e
parse_loop-set (n k ∷ opts) g r (f, fits) time e = parse_loop-set opts _ r fits time e
parse_loop-set (q k ∷ opts) g r (f, fits) time e = parse_loop-set opts _ r fits time e
parse_loop-set (t k ∷ opts) g r (f, fits) time e =
    parse_loop-set opts (record g { time_in_sec = extend k }) r fits (extend-IsTime k f) e
  where
    extend-IsTime : (k : ℕ) → k < 2 ^ 32 → IsTime (extend k)
    extend-IsTime k f = elim (Bool-cases (is_negative k)) [
      | inl neg ↦ rw neg (inr (ground (arith, neg), ground (arith, neg)))
      | inr pos ↦ rw pos (inl (ground (arith, pos)))
    ]
parse_loop-set (c mask ∷ opts) g r (f, fits) time e = parse_loop-set opts _ r fits time e
parse_loop-set (v ∷ opts) g r (f, fits) time e = parse_loop-set opts _ r fits time e
parse_loop-set (h ∷ opts) g r (f, fits) time e = absurd (cc-exits r e)
  where
    cc-exits : (r : UserConfig) → exits ≡ accepted r → ⊥
    cc-exits r e = cc
parse_loop-set (other ∷ opts) g r (f, fits) time e = absurd (cc-refused r e)
  where
    cc-refused : (r : UserConfig) → refused ≡ accepted r → ⊥
    cc-refused r e = cc

-- Whatever the options are, if `parse_args` accepts them, then the two numbers by which
-- `dump_result` divides, the time and the time in units of MiB, are not 0, and neither are the size
-- of a transfer and the depth of a queue.
pub parse_args-divisor :
    (opts : List Opt) (g : UserConfig)
    → All FitsInt opts
    → parse_args opts ≡ accepted g
    → (g.time_in_sec ≢ 0)
      × ((g.time_in_sec * 1024 * 1024) % 2 ^ 64 ≢ 0)
      × (g.xfer_size_bytes ≢ 0)
      × (g.queue_depth ≢ 0)
unfolding parse_args construct_user_config
parse_args-divisor opts g fits e =
    let (time, set1, set2, set3) =
      parse_loop-set opts construct_user_config g fits (inl (omega arith)) e in
    (set1, scaled g.time_in_sec time set1, set2, set3)
  where
    scaled : (k : ℕ) → IsTime k → k ≢ 0 → (k * 1024 * 1024) % 2 ^ 64 ≢ 0
    scaled k (inl small) ne = omega arith
    scaled k (inr (a, b)) ne = omega arith
