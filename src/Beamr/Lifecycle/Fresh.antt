-- ===== src/Beamr/Lifecycle/Fresh.antt =====
-- A port between its start and the end of its first initialization.
use hyper_beam.Common.{ℕ, ◌≡◌, Bytes, fault}
use hyper_beam.Core.Process.{Driver}
use hyper_beam.Helpers.Terms.{Ei}
use hyper_beam.Beamr.Output.{import_response_command}
use hyper_beam.Beamr.Lifecycle.{wasm_driver_start, stop_signal}

-- As long as `current_import` has not been assigned since the start, the stop of the port and an
-- import response both read it uninitialised, whatever else has happened to the port.
pub fresh_faults :
    (ei : Ei) (caller port now index : ℕ) (buff : Bytes) (d : Driver)
    → d.proc.current_import ≡ (wasm_driver_start port now).current_import
    → (stop_signal d.proc ≡ fault) × (import_response_command ei caller buff index d ≡ fault)
unfolding wasm_driver_start stop_signal import_response_command
fresh_faults ei caller port now index buff d h = (rw h, rw h)
