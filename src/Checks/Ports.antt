-- ===== src/Checks/Ports.antt =====
-- Commands, jobs and host calls of a port.
use hyper_beam.Common.{
  ℕ, ◌≡◌, refl, true, List, [], ◌∷◌, ◌++◌, none, some, stored, Outcome, done, fault, arith, pos,
}
use hyper_beam.Core.Values.{ValKind, WasmVal}
use hyper_beam.Core.Message.{codes}
use hyper_beam.Core.Process.{Terms, ImportHook, Driver}
use hyper_beam.Helpers.Convert.Loop.{Converted, cells}
use hyper_beam.Helpers.Convert.Echo.{val}
use hyper_beam.Helpers.Terms.{Ei, decode_list}
use hyper_beam.Beamr.Output.{wasm_driver_output, import_response_command, respond}
use hyper_beam.Beamr.Memory.{size_command}
use hyper_beam.Beamr.Output.Answers.{Kept, Answer, output_answers}
use hyper_beam.Beamr.Output.Calls.{DecodesCall}
use hyper_beam.Beamr.Lifecycle.{wasm_driver_start}
use hyper_beam.Wasm.Import.{new_response, import_reply}
use hyper_beam.Wasm.Import.Protocol.{settled, response_answers}
use hyper_beam.Checks.Data.{five, add, proc, driver, example_ei}

abbrev pub truncate : ℕ → ℕ
truncate x = 0

-- The value of an outcome that is known to be defined.
abbrev pub value_or : {A : Type 0} → Outcome A → A → A
value_or (done a) b = a
value_or fault b = b

abbrev pub ei : Ei
ei = example_ei (codes "size")

abbrev after_size : Driver
after_size = value_or (wasm_driver_output ei 2 [] driver) driver

output_answers_example : Kept driver after_size × Answer driver after_size
unfolding wasm_driver_output size_command
output_answers_example = output_answers ei 2 [] driver refl

abbrev pub two_fives : Terms
two_fives = some (cells (five ∷ five ∷ []))

pub decodes_add : DecodesCall ei (codes "add") 0 (codes "add") two_fives
unfolding decode_list
decodes_add = record { name_is = refl; name_fits = omega arith; end = 4; args_are = refl }

decodes_sub : DecodesCall ei (codes "sub") 0 (codes "sub") two_fives
unfolding decode_list
decodes_sub = record { name_is = refl; name_fits = omega arith; end = 4; args_are = refl }

abbrev pub fresh_port : Driver
fresh_port = record driver { proc = wasm_driver_start 1 3 }

abbrev pub hook : ImportHook
hook = record {
  module_name = codes "env" ++ (0 ∷ []);
  field_name = codes "get" ++ (0 ∷ []);
  signature = codes "(iI)I" ++ (0 ∷ []);
  stub_func = add;
}

abbrev pub one_result : List WasmVal
one_result = val ValKind.i64 0 ∷ []

abbrev waiting_port : Driver
waiting_port = record driver {
  proc = record proc { locked = true; current_import = stored (some (new_response (pos 0))) };
}

response_answers_example :
    (d' : Driver) × (results' : List WasmVal) × (import_response_command ei 2 [] 0 waiting_port
      ≡ done d')
    × (import_reply truncate hook one_result d'
        ≡ done (settled waiting_port, record { trap = none; results = results' }))
    × Converted truncate one_result (five ∷ []) results'
unfolding decode_list
response_answers_example =
    response_answers truncate hook refl ei 2 [] 0 0 (pos 0) one_result (five ∷ [])
      (stored five ∷ []) waiting_port refl refl refl (refl, tt) refl

abbrev leftover_port : Driver
leftover_port = record driver {
  proc = record proc { current_import = stored (some (respond two_fives (new_response (pos 2)))) };
}
