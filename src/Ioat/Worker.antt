-- ===== src/Ioat/Worker.antt =====
-- A worker of ioat/bench.cc with all its channels.
use systemish.Base.{ℕ, suc, ◌≡◌, refl, ap, ◌∙◌, Bool, true, List, [], ◌∷◌, Option, some, ◌>>=◌}
use systemish.Ioat.{Chan, submit_xfers, process_events, work_loop, drain_io, work_fn}

-- The loop that submits the first transfers.
unfoldable pub submit_all : ℕ → List Chan → List Chan
unfolding submit_xfers
submit_all queue_depth [] = []
submit_all queue_depth (t ∷ ts) = submit_xfers queue_depth t ∷ submit_all queue_depth ts

-- One pass over the channels, from the position `i` on: what each call of
-- `spdk_ioat_process_events` finds, by position.
unfoldable pub process_all : Bool → (ℕ → List Bool) → ℕ → List Chan → List Chan
unfolding process_events
process_all verify events i [] = []
process_all verify events i (t ∷ ts) =
    process_events verify (events i) t ∷ process_all verify events (suc i) ts

-- The passes until the time is up.
unfoldable pub passes : Bool → List (ℕ → List Bool) → List Chan → List Chan
unfolding process_all
passes verify [] ts = ts
passes verify (e ∷ es) ts = passes verify es (process_all verify e 0 ts)

-- The loop that drains one channel after the other; `after i` is what the calls for channel `i`
-- find.
unfoldable pub drain_all : Bool → (ℕ → List (List Bool)) → ℕ → List Chan → Option (List Chan)
unfolding drain_io
drain_all verify after i [] = some []
drain_all verify after i (t ∷ ts) =
    drain_io verify (after i) (record t { is_draining = true }) >>= λ u.
    drain_all verify after (suc i) ts >>= λ us. some (u ∷ us)

-- `work_fn` for all channels of the worker.
unfoldable pub work_all :
    Bool → ℕ → List (ℕ → List Bool) → (ℕ → List (List Bool)) → List Chan → Option (List Chan)
unfolding submit_all passes drain_all
work_all verify queue_depth during after ts =
    drain_all verify after 0 (passes verify during (submit_all queue_depth ts))

-- What the calls for one channel find.
abbrev pub column : ℕ → List (ℕ → List Bool) → List (List Bool)
column i [] = []
column i (e ∷ es) = e i ∷ column i es

-- The channels, each on its own.
abbrev pub each_alone :
    Bool → ℕ → List (ℕ → List Bool) → (ℕ → List (List Bool)) → ℕ → List Chan → Option (List Chan)
each_alone verify queue_depth during after i [] = some []
each_alone verify queue_depth during after i (t ∷ ts) =
    work_fn verify queue_depth (column i during) (after i) t >>= λ u.
    each_alone verify queue_depth during after (suc i) ts >>= λ us. some (u ∷ us)

abbrev looped : Bool → List (ℕ → List Bool) → ℕ → List Chan → List Chan
looped verify during i [] = []
looped verify during i (t ∷ ts) =
    work_loop verify (column i during) t ∷ looped verify during (suc i) ts

-- Passes from a position on.
abbrev passes_from : Bool → List (ℕ → List Bool) → ℕ → List Chan → List Chan
passes_from verify [] i ts = ts
passes_from verify (e ∷ es) i ts = passes_from verify es i (process_all verify e i ts)

passes-from :
    (verify : Bool) (during : List (ℕ → List Bool)) (ts : List Chan)
    → passes verify during ts ≡ passes_from verify during 0 ts
unfolding passes
passes-from verify [] ts = refl
passes-from verify (e ∷ es) ts = passes-from verify es (process_all verify e 0 ts)

passes_from-cons :
    (verify : Bool) (during : List (ℕ → List Bool)) (i : ℕ) (t : Chan) (ts : List Chan)
    → passes_from verify during i (t ∷ ts)
      ≡ work_loop verify (column i during) t ∷ passes_from verify during (suc i) ts
unfolding work_loop process_all
passes_from-cons verify [] i t ts = refl
passes_from-cons verify (e ∷ es) i t ts =
    passes_from-cons verify es i (process_events verify (e i) t) (process_all verify e (suc i) ts)

passes_from-nil :
    (verify : Bool) (during : List (ℕ → List Bool)) (i : ℕ) → passes_from verify during i [] ≡ []
unfolding process_all
passes_from-nil verify [] i = refl
passes_from-nil verify (e ∷ es) i = passes_from-nil verify es i

drain_all-each :
    (verify : Bool) (queue_depth : ℕ) (during : List (ℕ → List Bool)) (after : ℕ → List (List Bool))
    (i : ℕ) (ts : List Chan)
    → drain_all verify after i (passes_from verify during i (submit_all queue_depth ts))
      ≡ each_alone verify queue_depth during after i ts
unfolding drain_all submit_all work_fn
drain_all-each verify queue_depth during after i [] =
    ap (drain_all verify after i) (passes_from-nil verify during i)
drain_all-each verify queue_depth during after i (t ∷ ts) =
    ap (drain_all verify after i)
      (passes_from-cons verify during i (submit_xfers queue_depth t) (submit_all queue_depth ts))
    ∙ ap
        (λ rest. work_fn verify queue_depth (column i during) (after i) t >>= λ u.
          rest >>= λ us. some (u ∷ us))
        (drain_all-each verify queue_depth during after (suc i) ts)

-- A worker that takes turns with its channels, and drains them one after the other, leaves each
-- channel as if it had worked on that channel alone; it waits forever just if it would for one of
-- them.
pub work_all-each :
    (verify : Bool) (queue_depth : ℕ) (during : List (ℕ → List Bool)) (after : ℕ → List (List Bool))
    (ts : List Chan)
    → work_all verify queue_depth during after ts ≡ each_alone verify queue_depth during after 0 ts
unfolding work_all
work_all-each verify queue_depth during after ts =
    ap (drain_all verify after 0) (passes-from verify during (submit_all queue_depth ts))
    ∙ drain_all-each verify queue_depth during after 0 ts
