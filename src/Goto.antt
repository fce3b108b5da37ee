-- ===== src/Goto.antt =====
-- goto/: the same packet loop written plainly and in the "goto" form that hides memory latency,
-- in three experiments. `Machine` is the switching code that the goto forms share (fpp.h), `Log`
-- the packet hash and the `main` that the programs of goto/simple and goto/locals share.
pub mod Machine
pub mod Log
pub mod Simple
pub mod Locals
pub mod Divergence
