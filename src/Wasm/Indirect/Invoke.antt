-- ===== src/Wasm/Indirect/Invoke.antt =====
-- Indirect calls from host functions named `invoke...`.
use hyper_beam.Common.{ℕ, ◌≡◌, true, List, [], ◌∷◌, Option, none, some, stored, done, ℤ, Bool}
use hyper_beam.Core.Values.{ValKind, WasmVal, low32}
use hyper_beam.Core.Runtime.{Func, Memory}
use hyper_beam.Core.Process.{Proc, ImportHook, Driver}
use hyper_beam.Helpers.Convert.{Status, success}
use hyper_beam.Wasm.Import.{is_invoke, Reply}
use hyper_beam.Wasm.Indirect.{CallApi, wasm_execute_indirect_function}
use hyper_beam.Wasm.Execute.{Run, host_call, advance}

-- The index names a function with known types in the port's table.
pub record Resolves (api : CallApi) (p : Proc) (first : WasmVal) : Type 0 where
  pub table : Option ℕ
  pub table_is : p.indirect_func_table ≡ stored table
  pub func : Func
  pub func_is : api.table_func table (low32 first.of) ≡ some func
  pub params : List ValKind
  pub params_are : func.type.params ≡ some params
  pub results : List ValKind
  pub results_are : func.type.results ≡ some results

-- With the index as the only argument an indirect call reports success although it calls nothing,
-- and leaves the memories alone: the outcome is the same for every behaviour of the runtime's `wasm_runtime_call_indirect`.
pub indirect_without_args :
    (api : CallApi) (call : ℕ → List ℕ → List Memory → Bool × List Memory) (p : Proc)
    (memories : List Memory) (first : WasmVal)
    → Resolves api p first
    → (wasm_execute_indirect_function api p memories (first ∷ []) ≡ done (success, memories))
      × (wasm_execute_indirect_function
            (record api { call_indirect = call })
            p
            memories
            (first ∷ [])
          ≡ done (success, memories))
unfolding wasm_execute_indirect_function
indirect_without_args api call p memories first r = (
  rw (r.table_is, r.func_is, r.params_are, r.results_are),
  rw (r.table_is, r.func_is, r.params_are, r.results_are),
)

-- A host function named `invoke...` always returns without a trap and with the result vector that
-- it was given: whether the indirect call succeeds, and what it computes, is lost.
pub invoke_keeps_results :
    (api : CallApi) (leftover : ℤ) (hook : ImportHook) (args results : List WasmVal)
    (k : Reply → Run) (d : Driver) {status : Status} {memories : List Memory}
    → is_invoke hook ≡ true
    → wasm_execute_indirect_function api d.proc d.memories args ≡ done (status, memories)
    → advance api leftover (host_call hook args results k) d
      ≡ advance api leftover
          (k (record { trap = none; results = results }))
          (record d { memories = memories })
unfolding advance
invoke_keeps_results api leftover hook args results k d named called = rw (named, called)
