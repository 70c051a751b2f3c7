-- ===== src/Checks/Writing.antt =====
-- A write while a host call waits.
use hyper_beam.Common.{◌≡◌, refl, List, [], ◌∷◌, ◌++◌, none, pos, arith, take, drop}
use hyper_beam.Core.Values.{WasmVal}
use hyper_beam.Core.Message.{codes}
use hyper_beam.Core.Runtime.{Memory}
use hyper_beam.Helpers.Convert.{erl_term_to_wasm_val}
use hyper_beam.Helpers.Convert.Loop.{Converted}
use hyper_beam.Helpers.Exports.{first_memory, find_function}
use hyper_beam.Helpers.Terms.{decode_list}
use hyper_beam.Beamr.Memory.{write_message}
use hyper_beam.Beamr.Memory.Bounds.{HasMemory}
use hyper_beam.Beamr.Output.Headers.{Sends}
use hyper_beam.Wasm.Import.{is_invoke, import_request, new_response}
use hyper_beam.Wasm.Initialize.{wasm_initialize_runtime}
use hyper_beam.Wasm.Import.Protocol.{settled}
use hyper_beam.Wasm.Execute.{fresh_vals, waiting, advance, wasm_execute_function, resume}
use hyper_beam.Port.{Port, Reach}
use hyper_beam.Port.Writing.{SendsWrite, write_seen}
use hyper_beam.Checks.Data.{five, page, exports, length-zeros}
use hyper_beam.Checks.Ports.{truncate, hook, one_result}
use hyper_beam.Checks.Runs.{api}
use hyper_beam.Checks.System.{speaking, asked_port, asked-Reach, goes_on}

asked-HasMemory : HasMemory asked_port.0 exports 0 page
unfolding first_memory wasm_execute_function wasm_initialize_runtime find_function
    erl_term_to_wasm_val is_invoke import_request
asked-HasMemory = record {
  instance_is = refl;
  first_is = refl;
  held = refl;
  sized = length-zeros 65536;
}

two_bytes-SendsWrite : SendsWrite speaking (codes "write") 8 (1 ∷ 2 ∷ [])
two_bytes-SendsWrite = record {
  index = 3;
  sends = record { version = 131; behind_version = 1; version_is = refl; command_is = refl };
  behind_ptr = 2;
  ptr_is = refl;
  bits = 16;
  bytes_are = refl;
  whole = refl;
}

response-Sends : Sends speaking (codes "import_response") (codes "import_response") 3
response-Sends = record { version = 131; behind_version = 1; version_is = refl; command_is = refl }

write_seen_example :
    (t : Port) × (results' : List WasmVal) × (m' : Memory) × Reach speaking truncate 4 t
    × (t.worker ≡ waiting hook one_result goes_on)
    × (t.driver.sent ≡ asked_port.0.sent ++ (write_message ∷ []))
    × (resume truncate api (pos 0) hook one_result goes_on t.driver
        ≡ advance api
            (pos 0)
            (goes_on (record { trap = none; results = results' }))
            (settled t.driver))
    × Converted truncate one_result (five ∷ []) results'
    × HasMemory (settled t.driver) exports 0 m'
    × (take 2 (drop 8 m'.bytes) ≡ 1 ∷ 2 ∷ [])
unfolding decode_list wasm_execute_function wasm_initialize_runtime find_function
    erl_term_to_wasm_val is_invoke import_request fresh_vals new_response
write_seen_example =
    write_seen api (pos 0) hook one_result goes_on (five ∷ []) [] 2 8 (1 ∷ 2 ∷ []) (codes "write")
      (codes "import_response") 3 3 asked-Reach refl refl refl asked-HasMemory (omega arith)
      (omega (arith, asked-HasMemory.sized)) two_bytes-SendsWrite response-Sends refl refl refl
      (refl, tt) refl
