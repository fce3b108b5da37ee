-- ===== src/Timely.antt =====
-- timely/timely_test.cc: a rate that follows the samples of round-trip times.
-- `double` is a type with its operations; a literal is an integer with a number of decimals.
use systemish.Base.{
  ℕ, ◌≡◌, refl, Bool, true, false, Bool-cases, inl, inr, if◌then◌else◌, List, [], ◌∷◌, All, Option,
  some, none, ◌>>=◌,
}

pub record Doubles : Type 1 where
  pub Double : Type 0
  pub literal : ℕ → ℕ → Double
  pub lt : Double → Double → Bool
  pub le : Double → Double → Bool
  pub add : Double → Double → Double
  pub sub : Double → Double → Double
  pub mul : Double → Double → Double
  pub div : Double → Double → Double
  pub neg : Double → Double

module _ (d : Doubles) where
  abbrev D : Type 0
  D = d.Double

  abbrev int : ℕ → D
  int n = d.literal n 0

  -- `5.0 * 1000 * 1000 * 1000`, and `5.0 * 1000 * 1000` twice
  unfoldable pub max_rate : D
  max_rate = d.mul (d.mul (d.mul (d.literal 50 1) (int 1000)) (int 1000)) (int 1000)

  unfoldable pub min_rate : D
  min_rate = d.mul (d.mul (d.literal 50 1) (int 1000)) (int 1000)

  unfoldable pub add_rate : D
  add_rate = d.mul (d.mul (d.literal 50 1) (int 1000)) (int 1000)

  unfoldable pub min_rtt : D
  min_rtt = int 2

  unfoldable pub t_low : D
  t_low = int 50

  unfoldable pub t_high : D
  t_high = int 1000

  unfoldable pub ewma_alpha : D
  ewma_alpha = d.literal 875 3

  unfoldable pub beta : D
  beta = d.literal 8 3

  -- `std::max` and `std::min`
  unfoldable pub max : D → D → D
  max a b = if d.lt a b then b else a

  unfoldable pub min : D → D → D
  min a b = if d.lt b a then b else a

  pub record Timely : Type 0 where
    pub prev_rtt : D
    pub avg_rtt_diff : D
    pub rate : D

  unfoldable pub new : Timely
  unfolding min_rtt max_rate
  new = record { prev_rtt = min_rtt; avg_rtt_diff = d.literal 0 1; rate = max_rate }

  unfoldable pub w : D → D
  w g =
      if d.le g (d.neg (d.literal 25 2))
      then int 0
      else if d.le (d.literal 25 2) g
      then int 1
      else d.add (d.mul (int 2) g) (d.literal 5 1)

  -- The state and the new rate for a sample up to `kTHigh`, and above it.
  unfoldable pub near_rate : D → Timely → Timely × D
  near_rate sample_rtt t =
      let rtt_diff = d.sub sample_rtt t.prev_rtt in
      let avg =
        d.add (d.mul (d.sub (int 1) ewma_alpha) t.avg_rtt_diff) (d.mul ewma_alpha rtt_diff) in
      let weight = w (d.div avg min_rtt) in
      let error = d.div (d.sub sample_rtt t_low) t_low in
      (
        record t { prev_rtt = sample_rtt; avg_rtt_diff = avg },
        d.add (d.mul t.rate (d.sub (int 1) (d.mul (d.mul beta weight) error)))
            (d.mul add_rate (d.sub (int 1) weight)),
      )

  unfoldable pub far_rate : D → Timely → D
  far_rate sample_rtt t =
      d.mul t.rate (d.sub (int 1) (d.mul beta (d.sub (int 1) (d.div t_high sample_rtt))))

  unfoldable pub limit : D → Timely → Timely
  unfolding max min
  limit new_rate t = record t {
    rate = max (min (max new_rate (d.mul t.rate (d.literal 5 1))) max_rate) min_rate;
  }

  -- None is a failed assertion.
  unfoldable pub update_rate : D → Timely → Option Timely
  unfolding limit near_rate far_rate
  update_rate sample_rtt t =
      if d.lt t_low sample_rtt
      then some (
          if d.le sample_rtt t_high
          then limit (near_rate sample_rtt t).1 (near_rate sample_rtt t).0
          else limit (far_rate sample_rtt t) t)
      else none

  -- The loop of `test`, for the samples that it takes.
  unfoldable pub test : List D → Timely → Option Timely
  unfolding update_rate
  test [] t = some t
  test (sample_rtt ∷ samples) t = update_rate sample_rtt t >>= test samples

  -- What the order of the two limits has to be.
  pub record Ordered : Type 0 where
    pub max_self : d.lt max_rate max_rate ≡ false
    pub min_self : d.lt min_rate min_rate ≡ false
    pub limits : d.lt max_rate min_rate ≡ false

  abbrev pub InRange : D → Type 0
  InRange rate = (d.lt rate min_rate ≡ false) × (d.lt max_rate rate ≡ false)

  clamped-InRange : Ordered → (rate : D) → InRange (max (min rate max_rate) min_rate)
  unfolding max min
  clamped-InRange ordered rate = elim (Bool-cases (d.lt max_rate rate)) [
    | inl above ↦ rw (above, ordered.limits) (ordered.limits, ordered.max_self)
    | inr not_above ↦ elim (Bool-cases (d.lt rate min_rate)) [
      | inl below ↦ rw (not_above, below) (ordered.min_self, ordered.limits)
      | inr not_below ↦ rw (not_above, not_below) (not_below, not_above)
    ]
  ]

  limit-InRange : Ordered → (new_rate : D) (t : Timely) → InRange (limit new_rate t).rate
  unfolding limit
  limit-InRange ordered new_rate t =
      clamped-InRange ordered (max new_rate (d.mul t.rate (d.literal 5 1)))

  -- As long as every sample is above `kTLow`, no assertion fails, and the rate stays within its
  -- limits, from any rate within them on: it never compares as lower than the least rate or as
  -- higher than the greatest, whatever the arithmetic yields.
  pub test-InRange :
      Ordered
      → (samples : List D) (t : Timely) → InRange t.rate
      → All (λ s. d.lt t_low s ≡ true) samples
      → (u : Timely) × (test samples t ≡ some u) × InRange u.rate
  unfolding test update_rate
  test-InRange ordered [] t h above = (t, refl, h)
  test-InRange ordered (s ∷ samples) t h (big, above) = elim (Bool-cases (d.le s t_high)) [
    | inl near ↦
        let (u, run, ok) =
          test-InRange ordered samples (limit (near_rate s t).1 (near_rate s t).0)
            (limit-InRange ordered (near_rate s t).1 (near_rate s t).0) above in
        (u, rw (big, near) run, ok)
    | inr far ↦
        let (u, run, ok) =
          test-InRange ordered samples (limit (far_rate s t) t)
            (limit-InRange ordered (far_rate s t) t) above in
        (u, rw (big, far) run, ok)
  ]
