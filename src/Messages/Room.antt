-- ===== src/Messages/Room.antt =====
-- The slots that messages take, against those that are allocated for them.
use hyper_beam.Common.{
  ℕ, ◌+◌, ◌*◌, ◌≤◌, ◌<◌, ◌≡◌, refl, List, [], ◌∷◌, true, some, stored, done, fault, arith, length,
  length-append, ℤ, Cell, Bytes, >>=-eq-done,
}
use hyper_beam.Core.Values.{WasmVal}
use hyper_beam.Core.Message.{Message}
use hyper_beam.Core.Runtime.{ImportType, ExportType, Instance, Module}
use hyper_beam.Core.Process.{ImportHook, Proc, Driver}
use hyper_beam.Helpers.Convert.{wasm_val_to_erl_term}
use hyper_beam.Helpers.Convert.Loop.{is_number, Numbers}
use hyper_beam.Helpers.Exports.{deref}
use hyper_beam.Logging.{output_term}
use hyper_beam.Wasm.Import.{encode_vals, import_message, import_room, new_response, import_request}
use hyper_beam.Wasm.Execute.{execute_message, execute_room}
use hyper_beam.Wasm.Initialize.{
  Loader, process_import, process_imports, process_exports, note_table, export_sig, import_entry,
  export_entry, init_message, init_room,
}

length-val : (v : WasmVal) → length (wasm_val_to_erl_term v) ≤ 2
unfolding wasm_val_to_erl_term
length-val v = ground arith

length-number : (v : WasmVal) → is_number v.kind ≡ true → length (wasm_val_to_erl_term v) ≡ 2
unfolding wasm_val_to_erl_term
length-number v h = ground arith

length-encode_vals-le : (vs : List WasmVal) → length (encode_vals vs) ≤ 2 * length vs
unfolding encode_vals
length-encode_vals-le [] = omega arith
length-encode_vals-le (v ∷ vs) = omega (
  arith,
  length-append {0} (wasm_val_to_erl_term v) (encode_vals vs),
  length-val v,
  length-encode_vals-le vs,
)

pub length-encode_vals : (vs : List WasmVal) → Numbers vs → length (encode_vals vs) ≡ 2 * length vs
unfolding encode_vals
length-encode_vals [] n = refl
length-encode_vals (v ∷ vs) n = omega (
  arith,
  length-append {0} (wasm_val_to_erl_term v) (encode_vals vs),
  length-number v n.0,
  length-encode_vals vs n.1,
)

-- The message with the results of a call never takes more slots than are allocated for it.
pub execute_message_fits :
    (rs : List WasmVal) → length (execute_message rs) ≤ execute_room (length rs)
unfolding execute_message execute_room
execute_message_fits rs =
    omega (arith, length-append {0} (encode_vals rs) _, length-encode_vals-le rs)

length-import_message :
    (hook : ImportHook) (args : List WasmVal)
    → Numbers args
    → length (import_message hook args) ≡ 16 + 2 * length args
unfolding import_message
length-import_message hook args n =
    omega (arith, length-append {0} (encode_vals args) _, length-encode_vals args n)

-- A host call with arguments of number kinds, of a host function with a result, stays inside its
-- allocation: the message is sent and a new response is pending.
pub import_request_sends :
    (leftover : ℤ) (hook : ImportHook) (args results : List WasmVal) (d : Driver)
    → Numbers args
    → 0 < length results
    → import_request leftover hook args results d
      ≡ done (
          output_term (import_message hook args) (record d {
            proc = record d.proc { current_import = stored (some (new_response leftover)) };
          }))
unfolding import_request import_room
import_request_sends leftover hook args results d n some_result =
    ground (arith, length-import_message hook args n)

-- A host call with arguments of number kinds, of a host function without a result, writes its
-- message two slots past the end of what is allocated for it.
pub import_request_overflows :
    (leftover : ℤ) (hook : ImportHook) (args : List WasmVal) (d : Driver)
    → Numbers args
    → (import_request leftover hook args [] d ≡ fault)
      × (length (import_message hook args) ≡ import_room (length args) 0 + 2)
unfolding import_request import_room
import_request_overflows leftover hook args d n =
    let e = length-import_message hook args n in (ground (arith, e), omega (arith, e))

length-process_import :
    (loader : Loader) (t : ImportType) {r : Message × Cell ImportHook}
    → process_import loader t ≡ done r
    → length r.0 ≤ 13
unfolding process_import import_entry
length-process_import loader t h = ground arith

length-process_imports :
    (loader : Loader) (ts : List ImportType) {r : Message × List (Cell ImportHook)}
    → process_imports loader ts ≡ done r
    → (length r.0 ≤ 13 * length ts) × (length r.1 ≡ length ts)
unfolding process_imports
length-process_imports loader [] h = ground arith
length-process_imports loader (t ∷ ts) h =
    let (a, ea, h') = >>=-eq-done (process_import loader t) _ h in
    let (b, eb, h'') = >>=-eq-done (process_imports loader ts) _ h' in
    ground (
      arith,
      length-process_import loader t ea,
      length-process_imports loader ts eb,
      length-append a.0 b.0,
    )

length-process_exports :
    (leftover : ℕ → Bytes) (i : ℕ) (ts : List ExportType) (es : Instance) (p : Proc)
    {r : Message × Proc}
    → process_exports leftover i ts es p ≡ done r
    → length r.0 ≡ 10 * length ts
unfolding process_exports export_entry
length-process_exports leftover i [] es p h = ground arith
length-process_exports leftover i (t ∷ ts) es p h =
    let (name, en, h₁) = >>=-eq-done (deref t.name) _ h in
    let (p', ep, h₂) = >>=-eq-done (note_table i name es p) _ h₁ in
    let (sig, es', h₃) = >>=-eq-done (export_sig (leftover i) t.type) _ h₂ in
    let (b, eb, h₄) = >>=-eq-done (process_exports leftover (i + 1) ts es p') _ h₃ in
    ground (arith, length-process_exports leftover (i + 1) ts es p' eb)

-- The message about a loaded module never takes more slots than are allocated for it, whatever the
-- module imports and exports.
pub init_message_fits :
    (loader : Loader) (leftover : ℕ → Bytes) (m : Module) (es : Instance) (p : Proc)
    {imports : Message × List (Cell ImportHook)} {exports : Message × Proc}
    → process_imports loader m.imports ≡ done imports
    → process_exports leftover 0 m.exports es p ≡ done exports
    → length (init_message m imports.0 exports.0) ≤ init_room (length m.imports) (length m.exports)
unfolding init_message init_room
init_message_fits loader leftover m es p {imports} {exports} hi he = omega (
  arith,
  (length-process_imports loader m.imports hi).0,
  length-process_exports leftover 0 m.exports es p he,
  length-append {0} imports.0 _,
  length-append {0} exports.0 _,
)
