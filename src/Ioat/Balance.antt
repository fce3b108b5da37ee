-- ===== src/Ioat/Balance.antt =====
-- How ioat/bench.cc spreads the channels over the workers.
use systemish.Base.{
  ℕ, zero, suc, ◌+◌, ◌*◌, ◌<◌, ◌≡◌, ◌≢◌, refl, ap, sym, ◌∙◌, ◌==◌, ==_iff, ltb, if◌then◌else◌,
  Bool-cases, true, inl, inr, List, [], ◌∷◌, length, some, arith,
}
use mathlib.Core.Path.{subst}
use systemish.Ioat.{new_chan}
use systemish.Ioat.Setup.{
  Entry, Worker, Supply, give, next_worker, associate, associate_workers_with_chan,
}

-- the entries of the worker at a position
abbrev pub ctx_at : ℕ → List Worker → List Entry
ctx_at j [] = []
ctx_at zero (w ∷ ws) = w.ctx
ctx_at (suc j) (w ∷ ws) = ctx_at j ws

-- the channel at a position
abbrev pub chan_at : ℕ → List ℕ → ℕ
chan_at m [] = 0
chan_at zero (x ∷ xs) = x
chan_at (suc m) (x ∷ xs) = chan_at m xs

-- An entry's `ioat_chan_id` and channel.
pub record Numbered : Type 0 where
  pub number : ℕ
  pub device : ℕ

abbrev numbered : ℕ → ℕ → Numbered
numbered n c = record { number = n; device = c }

abbrev pub ids : List Entry → List Numbered
ids [] = []
ids (t ∷ ts) = numbered t.ioat_chan_id t.chan ∷ ids ts

-- Of the devices dealt out in turn to `k` workers, the `c` that worker `j` has, the last one first.
abbrev pub dealt : (ℕ → ℕ) → ℕ → ℕ → ℕ → List Numbered
dealt dev k j zero = []
dealt dev k j (suc c) = numbered (c * k + j) (dev (c * k + j)) ∷ dealt dev k j c

-- After `r` rounds and `at` more devices.
abbrev pub share : ℕ → ℕ → ℕ → ℕ
share r at j = if ltb j at then suc r else r

length-give : (at : ℕ) (t : Entry) (ws : List Worker) → length (give at t ws) ≡ length ws
unfolding give
length-give at t [] = refl
length-give zero t (w ∷ ws) = refl
length-give (suc at) t (w ∷ ws) = ap suc (length-give at t ws)

ctx_at-give :
    (at : ℕ) (t : Entry) (ws : List Worker)
    → at < length ws
    → ctx_at at (give at t ws) ≡ t ∷ ctx_at at ws
unfolding give
ctx_at-give at t [] h = absurd (omega (arith, h))
ctx_at-give zero t (w ∷ ws) h = refl
ctx_at-give (suc at) t (w ∷ ws) h = ctx_at-give at t ws (omega (arith, h))

ctx_at-give_other :
    (at j : ℕ) (t : Entry) (ws : List Worker) → j ≢ at → ctx_at j (give at t ws) ≡ ctx_at j ws
unfolding give
ctx_at-give_other at j t [] ne = refl
ctx_at-give_other zero zero t (w ∷ ws) ne = absurd (ne refl)
ctx_at-give_other zero (suc j) t (w ∷ ws) ne = refl
ctx_at-give_other (suc at) zero t (w ∷ ws) ne = refl
ctx_at-give_other (suc at) (suc j) t (w ∷ ws) ne = ctx_at-give_other at j t ws (λ e. ne (ap suc e))

-- The state of the loop before device `i`.
record Dealt (dev : ℕ → ℕ) (k r at i : ℕ) (ws : List Worker) : Type 0 where
  many : length ws ≡ k
  low : at < k
  here : i ≡ r * k + at
  each : (j : ℕ) → j < k → ids (ctx_at j ws) ≡ dealt dev k j (share r at j)

module _ (dev : ℕ → ℕ) (k r at i : ℕ) (ws : List Worker) (d : Dealt dev k r at i ws) (t : Entry)
    (id : t.ioat_chan_id ≡ i) (own : t.chan ≡ dev i) where
  open d use {many, low, here, each}

  -- The shares behind the entry that is given, for the one position up to which they are larger.
  given : (j : ℕ) → j < k → ids (ctx_at j (give at t ws)) ≡ dealt dev k j (share r (suc at) j)
  given j h = elim (Bool-cases (j == at)) [
    | inl same ↦
        let e : j ≡ at = (==_iff j at).0 same in
        subst (λ n. ids (ctx_at n (give at t ws)) ≡ dealt dev k n (share r (suc at) n)) (sym e)
          at_own
    | inr off ↦
        let same : share r (suc at) j ≡ share r at j = ground (arith, off) in
        ap ids (ctx_at-give_other at j t ws (ground (arith, off)))
        ∙ each j h
        ∙ ap (dealt dev k j) (sym same)
  ]
    where
      before : share r at at ≡ r
      before = ground arith

      after : share r (suc at) at ≡ suc r
      after = ground arith

      pair : numbered t.ioat_chan_id t.chan ≡ numbered (r * k + at) (dev (r * k + at))
      pair = λ n. numbered ((id ∙ here) n) ((own ∙ ap dev here) n)

      at_own : ids (ctx_at at (give at t ws)) ≡ dealt dev k at (share r (suc at) at)
      at_own =
          ap ids (ctx_at-give at t ws (omega (arith, many, low)))
          ∙ (λ n. pair n ∷ (each at low ∙ ap (dealt dev k at) before) n)
          ∙ ap (dealt dev k at) (sym after)

  give-Dealt : (r' : ℕ) × Dealt dev k r' (next_worker at ws) (suc i) (give at t ws)
  unfolding next_worker
  give-Dealt =
      let len : length (give at t ws) ≡ k = length-give at t ws ∙ many in
      elim (Bool-cases (suc at == k)) [
        | inl last ↦
            let e : suc at ≡ k = (==_iff (suc at) k).0 last in
            (
              suc r,
              rw (many, last)
                  (record {
                    many = len;
                    low = omega (arith, low);
                    here = ap suc here ∙ wraps r k at e;
                    each = λ j h. given j h ∙ ap (dealt dev k j) (full j h e);
                  }),
            )
        | inr more ↦ (
          r,
          rw (many, more)
              (record {
                many = len;
                low = ground (arith, low, more);
                here = ap suc here ∙ omega arith;
                each = given;
              }),
        )
      ]
    where
      wraps : (r k at : ℕ) → suc at ≡ k → suc (r * k + at) ≡ suc r * k + 0
      wraps r k at e = ground (arith, e)

      full : (j : ℕ) → j < k → suc at ≡ k → share r (suc at) j ≡ share (suc r) 0 j
      full j h e = ground (arith, h, e)

-- Every call succeeds in every turn.
abbrev pub Supplied : (ℕ → Supply) → Type 0
Supplied supply =
    (i : ℕ)
    → ((supply i).memory ≡ true)
      × (a : List ℕ) × (b : List ℕ) × ((supply i).data_pool ≡ some a)
      × ((supply i).task_pool ≡ some b)

-- What is left of the rounds when the devices have run out.
abbrev pub Shares : (ℕ → ℕ) → ℕ → ℕ → List Worker → Type 0
Shares dev k n ws =
    (r : ℕ) × (at : ℕ) × (at < k)
    × (n ≡ r * k + at)
    × (length ws ≡ k)
    × ((j : ℕ) → j < k → ids (ctx_at j ws) ≡ dealt dev k j (share r at j))

associate-Dealt :
    (dev : ℕ → ℕ) (k : ℕ) (supply : ℕ → Supply)
    → Supplied supply
    → (devices : List ℕ) (r at i : ℕ) (ws : List Worker) → Dealt dev k r at i ws
    → ((m : ℕ) → m < length devices → chan_at m devices ≡ dev (m + i))
    → let out = associate supply devices at i ws in
      (out.rc ≡ 0) × Shares dev k (length devices + i) out.workers
unfolding associate
associate-Dealt dev k supply ok [] r at i ws d named =
    (refl, (r, at, d.low, omega (arith, d.here), d.many, d.each))
associate-Dealt dev k supply ok (c ∷ rest) r at i ws d named =
    let (memory, a, b, p, q) = ok i in
    let t : Entry = record { chan = c; ioat_chan_id = i; state = new_chan a b } in
    let (r', d') =
      give-Dealt dev k r at i ws d t refl (named 0 (omega arith) ∙ ap dev (omega arith)) in
    let (rc, shares) =
      associate-Dealt dev k supply ok rest r' (next_worker at ws) (suc i) (give at t ws) d'
        (λ m h. named (suc m) (omega (arith, h)) ∙ ap dev (omega arith)) in
    rw (memory, p, q)
      (
        rc,
        subst
            (λ n.
              Shares dev k n
                (associate supply rest (next_worker at ws) (suc i) (give at t ws)).workers)
            (omega arith) shares,
      )

-- If every call succeeds, then `associate_workers_with_chan` returns 0, and the channels are dealt
-- out in turn to the workers, of which there is one and which had none: `n` channels for `k`
-- workers are `r` rounds and `at` more channels, worker `j` has `r` entries, or `r + 1` if `j` is
-- below `at`, and these are the channels number `j`, `j + k`, `j + 2 * k`, …, each under its
-- number, the last one first.
pub associate-Shares :
    (supply : ℕ → Supply) (devices : List ℕ) (w : Worker) (ws : List Worker)
    → Supplied supply
    → ((j : ℕ) → ctx_at j (w ∷ ws) ≡ [])
    → let out = associate_workers_with_chan supply devices (w ∷ ws) in
      (out.rc ≡ 0) × Shares (λ m. chan_at m devices) (length (w ∷ ws)) (length devices) out.workers
unfolding associate_workers_with_chan
associate-Shares supply devices w ws ok fresh =
    let dev : ℕ → ℕ = λ m. chan_at m devices in
    let (rc, shares) =
      associate-Dealt dev (length (w ∷ ws)) supply ok devices 0 0 0 (w ∷ ws)
        (record {
          many = refl;
          low = omega arith;
          here = omega arith;
          each = λ j h. ap ids (fresh j) ∙ ap (dealt dev (length (w ∷ ws)) j) (unserved j);
        })
        (λ m h. ap dev (omega arith)) in
    (
      rc,
      subst (λ n. Shares dev (length (w ∷ ws)) n (associate supply devices 0 0 (w ∷ ws)).workers)
          (omega arith) shares,
    )
  where
    unserved : (j : ℕ) → 0 ≡ share 0 0 j
    unserved j = ground arith
