-- ===== src/Checks/Runs.antt =====
-- Calls of exported functions and what they call.
use hyper_beam.Common.{refl, true, List, [], ◌∷◌, some, stored, pos}
use hyper_beam.Core.Values.{ValKind, WasmVal}
use hyper_beam.Core.Message.{codes}
use hyper_beam.Core.Runtime.{Func}
use hyper_beam.Core.Process.{Proc, Driver}
use hyper_beam.Helpers.Convert.Echo.{val}
use hyper_beam.Helpers.Exports.{find_function, get_exported_function}
use hyper_beam.Wasm.Import.{Reply}
use hyper_beam.Wasm.Indirect.{CallApi}
use hyper_beam.Wasm.Indirect.Invoke.{Resolves}
use hyper_beam.Wasm.Execute.{Run, returned, host_call, Worker, idle, wasm_execute_function}
use hyper_beam.Wasm.Execute.Runs.{Callable}
use hyper_beam.Checks.Data.{five, add, proc, driver}
use hyper_beam.Checks.Ports.{truncate, value_or, two_fives, hook}

abbrev pub api : CallApi
api = record {
  table_func = λ t i. some add;
  call_indirect = λ i argv memories. (true, memories);
  call_wasm_a = λ f ps rs. (true, rs);
}

abbrev table_port : Proc
table_port = record proc { indirect_func_table = stored (some 0) }

abbrev index : WasmVal
index = val ValKind.i32 4

index-Resolves : Resolves api table_port index
index-Resolves = record {
  table = some 0;
  table_is = refl;
  func = add;
  func_is = refl;
  params = ValKind.i32 ∷ ValKind.i64 ∷ [];
  params_are = refl;
  results = ValKind.i64 ∷ [];
  results_are = refl;
}

abbrev pub ends : Reply → Run
ends r = returned r.results

abbrev called_port : Driver
called_port = record driver {
  proc = record proc {
    current_function = stored (stored (codes "add"));
    current_args = stored two_fives;
  };
}

abbrev pub calls_out : Func → List WasmVal → List WasmVal → Run
calls_out f args results = host_call hook args results ends

abbrev after_execute : Driver × Worker
after_execute =
    value_or (wasm_execute_function truncate truncate api (pos 0) calls_out called_port)
      (driver, idle)

pub add-Callable :
    Callable driver
      (codes "add")
      add
      (ValKind.i32 ∷ ValKind.i64 ∷ [])
      (ValKind.i64 ∷ [])
      (five ∷ five ∷ [])
unfolding find_function get_exported_function
add-Callable = record {
  found = refl;
  params_are = refl;
  results_are = refl;
  numbers = (refl, (refl, tt));
  enough = refl;
}
