-- ===== src/Examples/Locals.antt =====
-- goto/locals at concrete inputs.
use systemish.Base.{ℕ, ◌*◌, ◌+◌, ◌≡◌, some}
use systemish.Goto.Locals.Nogoto
use systemish.Goto.Locals.Goto
use systemish.Goto.Locals.Same.{process_fallthrough-process_nogoto}

abbrev log : ℕ → ℕ
log i = i * 3

abbrev pkts : ℕ → ℕ
pkts i = 1000 * i + 3

process_fallthrough-process_nogoto_example :
    Goto.process_pkts_in_batch (λ i. 9) log pkts 41
    ≡ some (Nogoto.process_pkts_in_batch log pkts 41)
process_fallthrough-process_nogoto_example = process_fallthrough-process_nogoto (λ i. 9) log pkts 41
