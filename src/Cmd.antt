-- ===== src/Cmd.antt =====
-- cmd: the generators that are run by hand.
pub mod Sizes
