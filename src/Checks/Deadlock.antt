-- ===== src/Checks/Deadlock.antt =====
-- A stop that waits for ever.
use hyper_beam.Common.{ℕ, ◌≡◌, refl, pos}
use hyper_beam.Helpers.Convert.{erl_term_to_wasm_val}
use hyper_beam.Helpers.Exports.{find_function}
use hyper_beam.Beamr.Lifecycle.{wasm_driver_start, stop_signal}
use hyper_beam.Beamr.Output.{wasm_driver_output, init_command}
use hyper_beam.Wasm.Import.{is_invoke, import_request}
use hyper_beam.Wasm.Initialize.{wasm_initialize_runtime}
use hyper_beam.Wasm.Execute.{fresh_vals, waiting, wasm_execute_function}
use hyper_beam.Port.{stopping, Port, new_port, Step, Reach}
use hyper_beam.Port.Deadlock.{stop_hangs}
use hyper_beam.Checks.Ports.{truncate, hook, one_result}
use hyper_beam.Checks.Runs.{api}
use hyper_beam.Checks.System.{speaking, called-Reach, call-Takes, asks_once, goes_on}

stop_hangs_example :
    (t : Port) × Reach speaking truncate 2 t
    × (t.phase ≡ stopping)
    × (t.worker ≡ waiting hook one_result goes_on)
    × ((c : ℕ) (u : Port) → Step speaking truncate t c u → ⊥)
unfolding new_port wasm_driver_output init_command wasm_initialize_runtime wasm_driver_start
    wasm_execute_function find_function erl_term_to_wasm_val is_invoke import_request fresh_vals
    stop_signal
stop_hangs_example =
    stop_hangs truncate api (pos 0) asks_once hook one_result goes_on called-Reach refl refl
      call-Takes refl refl
