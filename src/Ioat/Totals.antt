-- ===== src/Ioat/Totals.antt =====
-- The table that ioat/bench.cc prints at the end, and its result.
use systemish.Base.{
  ℕ, ◌+◌, ◌*◌, ◌/◌, ◌%◌, ◌^◌, ◌<◌, ◌≤◌, ◌≡◌, ◌↔◌, refl, ◌∙◌, ◌==◌, if◌then◌else◌, List, [], ◌∷◌,
  ◌++◌, total, All, arith,
}
use systemish.Ioat.Config.{UserConfig}
use systemish.Ioat.Setup.{Entry, Worker}

-- A line of the table.
pub record Row : Type 0 where
  pub ioat_chan_id : ℕ
  pub core : ℕ
  pub xfer_per_sec : ℕ
  pub bw_in_MiBps : ℕ
  pub xfer_failed : ℕ

-- The lines that are printed and the two totals.
pub record Table : Type 0 where
  pub rows : List Row
  pub total_completed : ℕ
  pub total_failed : ℕ

abbrev pub bandwidth : UserConfig → ℕ → ℕ
bandwidth g xfers = (xfers * g.xfer_size_bytes % 2 ^ 64) / (g.time_in_sec * 1024 * 1024 % 2 ^ 64)

-- What the inner loop does for an entry.
unfoldable pub add_entry : UserConfig → ℕ → Entry → Table → Table
add_entry g core t s =
    let xfer_per_sec : ℕ = t.state.xfer_completed / g.time_in_sec in
    record {
      total_completed = (s.total_completed + t.state.xfer_completed) % 2 ^ 64;
      total_failed = (s.total_failed + t.state.xfer_failed) % 2 ^ 64;
      rows =
          if xfer_per_sec == 0
          then s.rows
          else s.rows
            ++ record {
              ioat_chan_id = t.ioat_chan_id;
              core = core;
              xfer_per_sec = xfer_per_sec;
              bw_in_MiBps = bandwidth g t.state.xfer_completed;
              xfer_failed = t.state.xfer_failed;
            }
              ∷ [];
    }

unfoldable pub add_entries : UserConfig → ℕ → List Entry → Table → Table
unfolding add_entry
add_entries g core [] s = s
add_entries g core (t ∷ ts) s = add_entries g core ts (add_entry g core t s)

unfoldable pub add_workers : UserConfig → List Worker → Table → Table
unfolding add_entries
add_workers g [] s = s
add_workers g (w ∷ ws) s = add_workers g ws (add_entries g w.core w.ctx s)

-- The table, the last line with its rate and bandwidth, and the value that is returned.
pub record Result : Type 0 where
  pub table : Table
  pub total_xfer_per_sec : ℕ
  pub total_bw_in_MiBps : ℕ
  pub rc : ℕ

-- `total_failed ? 1 : 0`
abbrev pub status : ℕ → ℕ
status total_failed = if total_failed == 0 then 0 else 1

unfoldable pub dump_result : UserConfig → List Worker → Result
unfolding add_workers
dump_result g ws =
    let table = add_workers g ws (record { rows = []; total_completed = 0; total_failed = 0 }) in
    record {
      table = table;
      total_xfer_per_sec = table.total_completed / g.time_in_sec;
      total_bw_in_MiBps = bandwidth g table.total_completed;
      rc = status table.total_failed;
    }

abbrev failed_of : Worker → ℕ
failed_of w = total (λ t. t.state.xfer_failed) w.ctx

-- all failed transfers
abbrev pub failures : List Worker → ℕ
failures ws = total failed_of ws

entries-total :
    (g : UserConfig) (core : ℕ) (ts : List Entry) (s : Table)
    → s.total_failed < 2 ^ 64
    → (add_entries g core ts s).total_failed
      ≡ (s.total_failed + total (λ t. t.state.xfer_failed) ts) % 2 ^ 64
unfolding add_entries add_entry
entries-total g core [] s h = omega (arith, h)
entries-total g core (t ∷ ts) s h =
    entries-total g core ts (add_entry g core t s) (omega arith) ∙ omega arith

workers-total :
    (g : UserConfig) (ws : List Worker) (s : Table)
    → s.total_failed < 2 ^ 64
    → (add_workers g ws s).total_failed ≡ (s.total_failed + failures ws) % 2 ^ 64
unfolding add_workers
workers-total g [] s h = omega (arith, h)
workers-total g (w ∷ ws) s h =
    let e = entries-total g w.core w.ctx s h in
    workers-total g ws (add_entries g w.core w.ctx s) (omega (arith, e)) ∙ omega (arith, e)

total-zero : {A : Type 0} (f : A → ℕ) (xs : List A) → (total f xs ≡ 0) ↔ All (λ x. f x ≡ 0) xs
total-zero f [] = ((λ e. tt), (λ p. refl))
total-zero f (x ∷ xs) = (
  λ e. (omega (arith, e), (total-zero f xs).0 (omega (arith, e))),
  λ p. let (a, b) = p in omega (arith, a, (total-zero f xs).1 b),
)

abbrev NoneFailed : List Worker → Type 0
NoneFailed ws = All (λ w. All (λ t. t.state.xfer_failed ≡ 0) w.ctx) ws

failures-zero : (ws : List Worker) → (failures ws ≡ 0) ↔ NoneFailed ws
failures-zero [] = ((λ e. tt), (λ p. refl))
failures-zero (w ∷ ws) =
    let (a, b) = total-zero (λ t. t.state.xfer_failed) w.ctx in
    let (c, d) = failures-zero ws in
    (
      λ e. (a (omega (arith, e)), c (omega (arith, e))),
      λ p. let (x, y) = p in omega (arith, b x, d y),
    )

status-zero : (n : ℕ) → ((status n ≡ 0) ↔ (n ≡ 0)) × (status n ≤ 1)
status-zero n = ground arith

-- While all failed transfers together are fewer than 2 ^ 64, `dump_result` returns 0 just if no
-- channel of any worker has one, whether or not the channel is listed in the table; and otherwise
-- 1.
pub dump_result_iff :
    (g : UserConfig) (ws : List Worker)
    → failures ws < 2 ^ 64
    → ((dump_result g ws).rc ≡ 0 ↔ All (λ w. All (λ t. t.state.xfer_failed ≡ 0) w.ctx) ws)
      × ((dump_result g ws).rc ≤ 1)
unfolding dump_result
dump_result_iff g ws h =
    let e =
      workers-total g ws (record { rows = []; total_completed = 0; total_failed = 0 })
        (omega arith) in
    let (a, b) = failures-zero ws in
    let ((c, d), low) =
      status-zero
        (add_workers g ws
          (record { rows = []; total_completed = 0; total_failed = 0 })).total_failed in
    (((λ z. a (omega (arith, e, h, c z))), (λ p. d (omega (arith, e, b p)))), low)
