-- ===== src/Messages.antt =====
-- The messages that the driver sends to Erlang: their size and their meaning.
pub mod Terms
pub mod Room
pub mod Denote
pub mod Echo
pub mod Loads
