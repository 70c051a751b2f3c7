-- ===== src/Wasm/Import.antt =====
-- native/hb_beamr/hb_wasm.c: `wasm_handle_import`, a host function called by WebAssembly code. It
-- asks Erlang and waits: `import_request` is the code before the wait, `import_reply` that after.
pub mod Protocol
use hyper_beam.Common.{
  ℕ, zero, suc, ◌+◌, ◌-◌, ◌*◌, Bool, false, Bytes, List, [], ◌∷◌, ◌++◌, Option, none, some, junk,
  stored, Outcome, done, fault, ◌>>=◌, fetch, ℤ, pos_part, leb, if◌then◌else◌, length,
}
use hyper_beam.Core.Values.{ValKind, WasmVal}
use hyper_beam.Core.Message.{
  codes, Message, drv_atom, drv_string, drv_nil, drv_list, drv_tuple, chars, word, atom_import,
}
use hyper_beam.Core.Process.{ImportResponse, ImportHook, Driver}
use hyper_beam.Helpers.Convert.{
  Status, success, failure, wasm_val_to_erl_term, erl_terms_to_wasm_vals,
}
use hyper_beam.Helpers.Exports.{deref}
use hyper_beam.Helpers.Strings.{strlen, strncmp_eq}
use hyper_beam.Logging.{output_term}

-- The loop that encodes values: each is written behind those before it.
unfoldable pub encode_vals : List WasmVal → Message
unfolding wasm_val_to_erl_term
encode_vals [] = []
encode_vals (v ∷ vs) = wasm_val_to_erl_term v ++ encode_vals vs

-- The slots allocated for the message, by the numbers of arguments and results.
unfoldable pub import_room : ℕ → ℕ → ℕ
import_room args results = 2 + 2 * 3 + (args + 1) * 2 + (results + 1) * 2 + 2

unfoldable pub import_message : ImportHook → List WasmVal → Message
unfolding encode_vals strlen
import_message hook args =
    drv_atom
    ∷ atom_import
    ∷ drv_string
    ∷ chars hook.module_name
    ∷ word (strlen hook.module_name)
    ∷ drv_string
    ∷ chars hook.field_name
    ∷ word (strlen hook.field_name)
    ∷ (encode_vals args
        ++ (drv_nil
            ∷ drv_list
            ∷ word (length args + 1)
            ∷ drv_string
            ∷ chars hook.signature
            ∷ word (strlen hook.signature - 1)
            ∷ drv_tuple
            ∷ word 5
            ∷ []))

-- A message of more slots than its allocation is written past its end.
abbrev pub fits_in : ℕ → Message → Outcome Message
fits_in room m = if leb (length m) room then done m else fault

-- `leftover` is what the allocated response holds in the field that nothing assigns.
unfoldable pub new_response : ℤ → ImportResponse
new_response leftover = record {
  ready = false;
  error_message = junk;
  result_terms = junk;
  result_length = leftover;
}

unfoldable pub is_invoke : ImportHook → Bool
unfolding strncmp_eq
is_invoke hook = strncmp_eq 6 hook.field_name (codes "invoke")

-- Up to `drv_wait`. The number of results is the size of the vector that the runtime passes.
unfoldable pub import_request :
    ℤ → ImportHook → List WasmVal → List WasmVal → Driver → Outcome Driver
unfolding import_room import_message new_response
import_request leftover hook args results d =
    fits_in (import_room (length args) (length results)) (import_message hook args) >>= λ m. done (
      output_term m (record d {
        proc = record d.proc { current_import = stored (some (new_response leftover)) };
      }))

-- The loop that sets the kinds of the first `n` results.
unfoldable pub set_kinds : ℕ → List ValKind → List WasmVal → Outcome (List WasmVal)
set_kinds zero ks vs = done vs
set_kinds (suc n) (k ∷ ks) (v ∷ vs) =
    set_kinds n ks vs >>= λ rest. done (record v { kind = k } ∷ rest)
set_kinds (suc n) _ _ = fault

-- How the host function returns: with a trap that carries a message, or with none, and with the
-- result vector.
pub record Reply : Type 0 where
  pub trap : Option Bytes
  pub results : List WasmVal

unfoldable pub clear_import : Driver → Driver
clear_import d = record d { proc = record d.proc { current_import = stored none } }

-- The terms of the response have been converted, or not; then the response stays pending.
unfoldable pub after_terms : Driver → List WasmVal × Status → Driver × Reply
unfolding clear_import
after_terms d (vals, failure) = (d, record { trap = none; results = vals })
after_terms d (vals, success) = (clear_import d, record { trap = none; results = vals })

-- The error message of the response, if it has one.
unfoldable pub after_error :
    (ℕ → ℕ)
    → ImportHook
    → List WasmVal
    → Driver
    → ImportResponse
    → Option Bytes
    → Outcome (Driver × Reply)
unfolding after_terms clear_import set_kinds erl_terms_to_wasm_vals
after_error narrow hook results d r (some text) =
    done (clear_import d, record { trap = some text; results = results })
after_error narrow hook results d r none = deref hook.stub_func.type.results >>= λ types.
    set_kinds (pos_part r.result_length) types results >>= λ vals. fetch r.result_terms >>= λ terms.
    erl_terms_to_wasm_vals narrow vals terms >>= λ converted. done (after_terms d converted)

-- After `drv_wait` has returned.
unfoldable pub import_reply :
    (ℕ → ℕ) → ImportHook → List WasmVal → Driver → Outcome (Driver × Reply)
unfolding after_error
import_reply narrow hook results d = fetch d.proc.current_import >>= λ pending.
    deref pending >>= λ r. fetch r.error_message >>= after_error narrow hook results d r
