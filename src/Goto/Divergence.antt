-- ===== src/Goto/Divergence.antt =====
-- goto/synthetic-divergence: each packet follows up to DEPTH pointers through a cache of buckets,
-- and may stop early, so the packets of a batch diverge.
pub mod Nogoto
pub mod Goto
pub mod Same
pub mod Bounds
