-- ===== src/Goto/Locals.antt =====
-- goto/locals: the plain loop, and a goto form without a mask, in which packet 0 falls through
-- from the first label to the second.
pub mod Nogoto
pub mod Goto
pub mod Same
