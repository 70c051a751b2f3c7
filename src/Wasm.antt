-- ===== src/Wasm.antt =====
-- native/hb_beamr/hb_wasm.c: loading a module, and the calls in both directions.
pub mod Import
pub mod Indirect
pub mod Initialize
pub mod Execute
