-- ===== src/Sync.antt =====
-- native/hb_beamr/hb_driver.c: the mutexes and the condition that two threads share.
pub mod Defs
pub mod Invariant
pub mod Bound
pub mod Progress
pub mod Safety
pub mod Handoff
