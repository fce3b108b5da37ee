-- ===== src/Goto/Simple.antt =====
-- goto/simple: one log access for each packet, with the plain loop, the goto form, and batches
-- by hand.
pub mod Nogoto
pub mod Goto
pub mod Manual
pub mod Same
