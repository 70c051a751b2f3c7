-- ===== src/Wasm/Execute.antt =====
-- native/hb_beamr/hb_wasm.c: `wasm_execute_function`, the job that runs an exported function, and
-- its interplay with the host functions that the function calls on its way.
pub mod Runs
pub mod Turns
use hyper_beam.Common.{
  Option, some, none, ℕ, ◌+◌, ◌*◌, Bytes, List, [], ◌∷◌, ◌++◌, Outcome, done, ◌>>=◌, fetch, ℤ,
  if◌then◌else◌, length,
}
use hyper_beam.Core.Values.{ValKind, WasmVal}
use hyper_beam.Core.Message.{
  codes, Message, drv_atom, drv_nil, drv_list, drv_tuple, word, atom_execution_result,
}
use hyper_beam.Core.Runtime.{Func, Memory}
use hyper_beam.Core.Process.{ImportHook, Driver}
use hyper_beam.Helpers.Convert.{Status, success, failure, erl_terms_to_wasm_vals}
use hyper_beam.Helpers.Exports.{deref, get_exported_function}
use hyper_beam.Logging.{output_term, send_error}
use hyper_beam.Wasm.Import.{
  encode_vals, fits_in, is_invoke, import_request, Reply, import_reply, clear_import,
}
use hyper_beam.Wasm.Indirect.{CallApi, wasm_execute_indirect_function}
use hyper_beam.Wasm.Initialize.{lock, unlock}

-- A vector of values of given kinds; `fill` is what its memory held at each index.
unfoldable pub fresh_vals : (ℕ → ℕ) → ℕ → List ValKind → List WasmVal
fresh_vals fill i [] = []
fresh_vals fill i (k ∷ ks) = record { kind = k; of = fill i } ∷ fresh_vals fill (i + 1) ks

-- The job up to the call: an error has been sent, or the function is to be called with its
-- argument and result vectors.
pub data Begun : Type 0 where
  refused : Driver → Begun
  calling : Func → List WasmVal → List WasmVal → Begun

-- The arguments have been converted, or not.
unfoldable pub after_convert :
    (ℕ → ℕ) → Func → List ValKind → Driver → List WasmVal × Status → Begun
unfolding fresh_vals send_error
after_convert fill func results d (args, failure) =
    refused (unlock (send_error (codes "Failed to convert terms to wasm vals") d))
after_convert fill func results d (args, success) = calling func args (fresh_vals fill 0 results)

-- The function has been looked up by its name.
unfoldable pub after_lookup : (ℕ → ℕ) → (ℕ → ℕ) → Bytes → Driver → Option Func → Outcome Begun
unfolding after_convert fresh_vals erl_terms_to_wasm_vals send_error
after_lookup narrow fill name d none =
    done (refused (unlock (send_error (codes "Function not found: " ++ name) d)))
after_lookup narrow fill name d (some func) = deref func.type.params >>= λ params.
    deref func.type.results >>= λ results. fetch d.proc.current_args >>= λ terms.
    erl_terms_to_wasm_vals narrow (fresh_vals fill 0 params) terms >>= λ converted.
    done (after_convert fill func results d converted)

unfoldable pub execute_begin : (ℕ → ℕ) → (ℕ → ℕ) → Driver → Outcome Begun
unfolding after_lookup get_exported_function
execute_begin narrow fill d = fetch d.proc.current_function >>= λ buffer.
    fetch buffer >>= λ name. get_exported_function d.proc name >>= after_lookup narrow fill name d

unfoldable pub execute_room : ℕ → ℕ
execute_room results = 7 + results * 2

unfoldable pub execute_message : List WasmVal → Message
unfolding encode_vals
execute_message results =
    drv_atom
    ∷ atom_execution_result
    ∷ (encode_vals results
        ++ (drv_nil ∷ drv_list ∷ word (length results + 1) ∷ drv_tuple ∷ word 2 ∷ []))

-- The call returned a result vector.
unfoldable pub execute_finish : List WasmVal → Driver → Outcome Driver
unfolding execute_room execute_message clear_import
execute_finish results d =
    fits_in (execute_room (length results)) (execute_message results) >>= λ m.
    done (unlock (clear_import (output_term m d)))

-- The call returned a trap with a message.
unfoldable pub execute_trapped : Bytes → Driver → Driver
unfolding send_error
execute_trapped text d = unlock (send_error text d)

-- What `wasm_func_call` does, as far as the driver sees it: it returns, traps, goes on by what it
-- finds in the memories and leaves others, or calls a host function, with arguments and a result
-- vector, and goes on by the reply.
pub data Run : Type 0 where
  returned : List WasmVal → Run
  trapped : Bytes → Run
  computes : (List Memory → List Memory) → (List Memory → Run) → Run
  host_call : ImportHook → List WasmVal → List WasmVal → (Reply → Run) → Run

-- A thread that runs jobs: `waiting` inside `drv_wait` of a host call.
pub data Worker : Type 0 where
  idle : Worker
  waiting : ImportHook → List WasmVal → (Reply → Run) → Worker

-- The run goes on until it ends or waits. A host function named `invoke...` is an indirect call,
-- whose status is dropped; `leftover` is what a new import response holds by chance.
unfoldable pub advance : CallApi → ℤ → Run → Driver → Outcome (Driver × Worker)
advance api leftover (returned results) d = execute_finish results d >>= λ d'. done (d', idle)
advance api leftover (trapped text) d = done (execute_trapped text d, idle)
advance api leftover (computes f k) d =
    advance api leftover (k d.memories) (record d { memories = f d.memories })
advance api leftover (host_call hook args results k) d =
    let go = advance api leftover (k (record { trap = none; results = results })) in
    if is_invoke hook
    then (wasm_execute_indirect_function api d.proc d.memories args >>= λ (_, memories).
        go (record d { memories = memories }))
    else (import_request leftover hook args results d >>= λ d'. done (d', waiting hook results k))

-- The call itself, with `call` for `wasm_func_call`.
unfoldable pub run_begun :
    CallApi
    → ℤ
    → (Func → List WasmVal → List WasmVal → Run)
    → Driver
    → Begun
    → Outcome (Driver × Worker)
unfolding advance
run_begun api leftover call d (refused d') = done (d', idle)
run_begun api leftover call d (calling func args results) =
    advance api leftover (call func args results) d

-- The whole job, run once it can have the mutex `is_running`.
unfoldable pub wasm_execute_function :
    (ℕ → ℕ)
    → (ℕ → ℕ)
    → CallApi
    → ℤ
    → (Func → List WasmVal → List WasmVal → Run)
    → Driver
    → Outcome (Driver × Worker)
unfolding execute_begin run_begun
wasm_execute_function narrow fill api leftover call d =
    execute_begin narrow fill (lock d) >>= run_begun api leftover call (lock d)

-- The host call goes on once `drv_wait` returns.
unfoldable pub resume :
    (ℕ → ℕ)
    → CallApi
    → ℤ
    → ImportHook
    → List WasmVal
    → (Reply → Run)
    → Driver
    → Outcome (Driver × Worker)
unfolding import_reply advance
resume narrow api leftover hook results k d =
    import_reply narrow hook results d >>= λ (d', reply). advance api leftover (k reply) d'
