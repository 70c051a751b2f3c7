-- ===== src/Helpers.antt =====
-- native/hb_beamr/hb_helpers.c, by its groups of functions.
pub mod Convert
pub mod Strings
pub mod Signature
pub mod Exports
pub mod Terms
