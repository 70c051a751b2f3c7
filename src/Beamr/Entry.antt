-- ===== src/Beamr/Entry.antt =====
-- native/hb_beamr/hb_beamr.c: the table of callbacks that the Erlang runtime gets.
use hyper_beam.Common.{ℕ, Bool, true, Bytes, Outcome}
use hyper_beam.Core.Message.{codes}
use hyper_beam.Core.Process.{Proc, Driver}
use hyper_beam.Helpers.Terms.{Ei}
use hyper_beam.Beamr.Lifecycle.{wasm_driver_start, stop_signal}
use hyper_beam.Beamr.Output.{wasm_driver_output}

-- `ErlDrvEntry`, by the callbacks that are not `NULL`. `stop` is its part up to the wait for the
-- mutex. With port locking, the runtime calls no two callbacks of a port at once.
pub record DriverEntry : Type 0 where
  pub start : ℕ → ℕ → Proc
  pub stop : Proc → Outcome Proc
  pub output : Ei → ℕ → Bytes → Driver → Outcome Driver
  pub driver_name : Bytes
  pub use_port_locking : Bool

abbrev pub wasm_driver_entry : DriverEntry
wasm_driver_entry = record {
  start = wasm_driver_start;
  stop = stop_signal;
  output = wasm_driver_output;
  driver_name = codes "hb_beamr";
  use_port_locking = true;
}
