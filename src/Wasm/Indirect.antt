-- ===== src/Wasm/Indirect.antt =====
-- native/hb_beamr/hb_wasm.c: `wasm_execute_indirect_function` and `wasm_execute_exported_function`,
-- calls that the driver itself makes into WebAssembly code.
pub mod Invoke
use hyper_beam.Common.{
  ℕ, Bool, true, false, List, [], ◌∷◌, Option, none, some, Cell, Outcome, done, fault, ◌>>=◌, fetch,
  if◌then◌else◌, map,
}
use hyper_beam.Common.{Bytes}
use hyper_beam.Core.Values.{ValKind, WasmVal, low32}
use hyper_beam.Core.Runtime.{FuncType, Func, Memory}
use hyper_beam.Core.Process.{Proc}
use hyper_beam.Helpers.Convert.{Status, success, failure}
use hyper_beam.Helpers.Exports.{deref, get_exported_function}

-- The runtime's functions that the two calls use. `table_func` is `wasm_table_get` and
-- `wasm_ref_as_func`; the calls say whether they succeeded, `call_indirect` also what it makes of the
-- memories, and `call_wasm_a` what it leaves in the result array.
pub record CallApi : Type 0 where
  pub table_func : Option ℕ → ℕ → Option Func
  pub call_indirect : ℕ → List ℕ → List Memory → Bool × List Memory
  pub call_wasm_a : ℕ → List WasmVal → List WasmVal → Bool × List WasmVal

abbrev pub value_of : WasmVal → ℕ
value_of v = v.of

-- The eight bytes of each argument behind the function's index.
unfoldable pub argv_of : List WasmVal → List ℕ
argv_of vs = map value_of vs

-- The call of the function at an index, with the arguments behind the index.
unfoldable pub call_prepared : CallApi → ℕ → List WasmVal → List Memory → Status × List Memory
unfolding argv_of
call_prepared api function_index [] memories = (success, memories)
call_prepared api function_index (a ∷ rest) memories =
    let (called, after) = api.call_indirect function_index (argv_of (a ∷ rest)) memories in
    (if called then success else failure, after)

-- The argument vector of the import: its first element is the index of the function to call. The
-- result vector is no argument, as the C function does not touch it.
unfoldable pub wasm_execute_indirect_function :
    CallApi → Proc → List Memory → List WasmVal → Outcome (Status × List Memory)
unfolding call_prepared
wasm_execute_indirect_function api p memories [] = fault
wasm_execute_indirect_function api p memories (first ∷ rest) =
    fetch p.indirect_func_table >>= λ table.
    deref (api.table_func table (low32 first.of)) >>= λ func. deref func.type.params >>= λ _.
    deref func.type.results >>= λ _. done (call_prepared api (low32 first.of) rest memories)

-- The loop over the parameters: an array shorter than the type's vector is written past its end.
unfoldable pub set_param_kinds : List ValKind → List WasmVal → Outcome (List WasmVal)
set_param_kinds [] vs = done vs
set_param_kinds (k ∷ ks) [] = fault
set_param_kinds (k ∷ ks) (v ∷ vs) =
    set_param_kinds ks vs >>= λ rest. done (record v { kind = k } ∷ rest)

-- The loop over the results, which also clears the values.
unfoldable pub clear_results : List ValKind → List WasmVal → Outcome (List WasmVal)
clear_results [] vs = done vs
clear_results (k ∷ ks) [] = fault
clear_results (k ∷ ks) (v ∷ vs) =
    clear_results ks vs >>= λ rest. done (record { kind = k; of = 0 } ∷ rest)

-- The status and the two arrays. `results[0]` is read at the end.
unfoldable pub wasm_execute_exported_function :
    CallApi
    → Proc
    → Bytes
    → List WasmVal
    → List WasmVal
    → Outcome (Status × List WasmVal × List WasmVal)
unfolding set_param_kinds clear_results get_exported_function
wasm_execute_exported_function api p name params results = get_exported_function p name >>= λ found.
    elim found [
      | none ↦ done (failure, params, results)
      | some func ↦ elim func.type.params [
        | none ↦ done (failure, params, results)
        | some param_types ↦ set_param_kinds param_types params >>= λ params'.
            elim func.type.results [
              | none ↦ done (failure, params', results)
              | some result_types ↦ clear_results result_types results >>= λ results'.
                  let (called, after) = api.call_wasm_a func.func_comm_rt params' results' in
                  elim called [
                    | false ↦ done (failure, params', after)
                    | true ↦ elim after [ [] ↦ fault | r ∷ rs ↦ done (success, params', r ∷ rs) ]
                  ]
            ]
      ]
    ]
