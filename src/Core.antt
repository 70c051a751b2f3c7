-- ===== src/Core.antt =====
-- native/hb_beamr/include/hb_core.h, and the data of the libraries that its types name.
pub mod Values
pub mod Message
pub mod Objects
pub mod Runtime
pub mod Process
