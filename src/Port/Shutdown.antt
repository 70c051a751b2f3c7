-- ===== src/Port/Shutdown.antt =====
-- The stop of a port while a job waits in a host call.
use hyper_beam.Common.{Bytes, some, none, stored}
use hyper_beam.Core.Message.{codes}
use hyper_beam.Core.Objects.{Objects}
use hyper_beam.Core.Process.{ImportResponse, Driver}
use hyper_beam.Beamr.Lifecycle.{fail_import}
use hyper_beam.Wasm.Execute.{execute_trapped}
use hyper_beam.Port.{Port}

abbrev pub unloaded_text : Bytes
unloaded_text = codes "WASM driver unloaded during import response"

-- The port after its stop has failed the pending import.
abbrev failed_port : ImportResponse → Driver → Driver
failed_port r d = record d {
  proc = record d.proc { current_import = stored (some (fail_import r)) };
}

-- The port after the trap.
abbrev trapped_port : Bytes → Driver → Driver
trapped_port text d =
    execute_trapped text (record d { proc = record d.proc { current_import = stored none } })
