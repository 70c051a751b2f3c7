-- ===== src/Beamr.antt =====
-- native/hb_beamr/hb_beamr.c: the entry points of the port driver.
pub mod Memory
pub mod Output
pub mod Lifecycle
pub mod Entry
