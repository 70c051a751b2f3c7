-- ===== src/Client.antt =====
-- src/hb_beamr.erl and src/hb_beamr_io.erl: the Erlang side of a port. A client process sends
-- commands by way of the worker process that owns the port, and takes the port's messages out of
-- its mailbox.
pub mod Session
pub mod Worker
pub mod Io
pub mod Call
pub mod Allocate
pub mod Image
pub mod Reach
