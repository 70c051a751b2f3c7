-- ===== src/Wasm/Initialize.antt =====
-- native/hb_beamr/hb_wasm.c: `wasm_initialize_runtime`, which loads a module, links its imports to
-- host functions and tells Erlang what the module imports and exports.
pub mod Loads
pub mod Failure
pub mod Accounts
pub mod Totality
pub mod Ready
use hyper_beam.Common.{
  ℕ, ◌+◌, ◌-◌, ◌*◌, true, false, Bytes, List, [], ◌∷◌, ◌++◌, Option, none, some, Cell, junk, stored,
  Outcome, done, fault, fetch, ◌>>=◌, leb, if◌then◌else◌, length, get_elem?,
}
use hyper_beam.Core.Objects.{create, delete}
use hyper_beam.Core.Message.{
  codes, Message, drv_atom, drv_string, drv_nil, drv_list, drv_tuple, atom_of, chars, word,
  atom_execution_result,
}
use hyper_beam.Core.Runtime.{
  FuncType, ExternType, Func, Extern, ImportType, ExportType, Instance, Module, Memory,
}
use hyper_beam.Core.Process.{LoadWasmReq, ImportHook, Proc, Driver}
use hyper_beam.Helpers.Convert.{wasm_externtype_to_kind_string}
use hyper_beam.Helpers.Exports.{deref}
use hyper_beam.Helpers.Signature.{get_function_sig}
use hyper_beam.Helpers.Strings.{strlen, strcmp_eq}
use hyper_beam.Logging.{output_term, send_error}
use hyper_beam.Wasm.Import.{fits_in}

-- The runtime's functions: loading a binary of a size, making a host function of a type, and
-- linking a module to its externals (given by their hooks, where any was stored), which may also make
-- and fill memories of the store.
pub record Loader : Type 0 where
  pub module_new : Cell Bytes → ℕ → Option Module
  pub func_new : FuncType → Func
  pub instance_new : Module → List (Cell ImportHook) → List Memory → Option Instance × List Memory

-- The buffer of 256 bytes for a signature.
abbrev pub checked_sig : Bytes → Outcome Bytes
checked_sig sig = if leb (length sig) 256 then done sig else fault

unfoldable pub import_entry : ImportType → Bytes → Message
unfolding wasm_externtype_to_kind_string strlen
import_entry t sig =
    drv_atom
    ∷ atom_of (wasm_externtype_to_kind_string t.type)
    ∷ drv_string
    ∷ chars t.module_name
    ∷ word (length t.module_name - 1)
    ∷ drv_string
    ∷ chars t.name
    ∷ word (length t.name - 1)
    ∷ drv_string
    ∷ chars sig
    ∷ word (strlen sig)
    ∷ drv_tuple
    ∷ word 4
    ∷ []

unfoldable pub import_hook : Loader → ImportType → FuncType → Bytes → ImportHook
import_hook loader t type sig = record {
  module_name = t.module_name;
  field_name = t.name;
  signature = sig;
  stub_func = loader.func_new type;
}

-- One round of the loop over the imports: the slots that it writes and the entry of `stubs` that it
-- stores. An import that is no function is skipped.
unfoldable pub process_import : Loader → ImportType → Outcome (Message × Cell ImportHook)
unfolding get_function_sig import_entry import_hook
process_import loader t = elim t.type [
  | ExternType.func type ↦ elim (get_function_sig (ExternType.func type)) [
    | none ↦ done ([], junk)
    | some sig ↦
        checked_sig sig >>= λ s. done (import_entry t s, stored (import_hook loader t type s))
  ]
  | _ ↦ done ([], junk)
]

unfoldable pub process_imports :
    Loader → List ImportType → Outcome (Message × List (Cell ImportHook))
unfolding process_import
process_imports loader [] = done ([], [])
process_imports loader (t ∷ ts) = process_import loader t >>= λ (slots, stub).
    process_imports loader ts >>= λ (rest, stubs). done (slots ++ rest, stub ∷ stubs)

unfoldable pub export_entry : Bytes → ExternType → Bytes → Message
unfolding wasm_externtype_to_kind_string strlen
export_entry name type sig =
    drv_atom
    ∷ atom_of (wasm_externtype_to_kind_string type)
    ∷ drv_string
    ∷ chars name
    ∷ word (length name - 1)
    ∷ drv_string
    ∷ chars sig
    ∷ word (strlen sig)
    ∷ drv_tuple
    ∷ word 3
    ∷ []

-- The signature of an export that is no function is what the fresh buffer held.
unfoldable pub export_sig : Bytes → ExternType → Outcome Bytes
unfolding get_function_sig
export_sig leftover type = elim (get_function_sig type) [
  | none ↦ done leftover
  | some sig ↦ checked_sig sig
]

-- `wasm_extern_as_table`
unfoldable pub extern_as_table : Extern → Option ℕ
extern_as_table (Extern.table a) = some a
extern_as_table (Extern.func _) = none
extern_as_table Extern.global = none
extern_as_table (Extern.memory _) = none

-- The export of this name is remembered with its index.
unfoldable pub note_table : ℕ → Bytes → Instance → Proc → Outcome Proc
unfolding extern_as_table strcmp_eq
note_table i name exports p =
    if strcmp_eq name (codes "__indirect_function_table")
    then (deref (get_elem? exports i) >>= λ e. done (record p {
      indirect_func_table_ix = stored i;
      indirect_func_table = stored (extern_as_table e);
    }))
    else done p

-- The loop over the exports from one index on. `leftover` gives what each fresh buffer held.
unfoldable pub process_exports :
    (ℕ → Bytes) → ℕ → List ExportType → Instance → Proc → Outcome (Message × Proc)
unfolding note_table export_sig export_entry
process_exports leftover i [] exports p = done ([], p)
process_exports leftover i (t ∷ ts) exports p = deref t.name >>= λ name.
    note_table i name exports p >>= λ p'. export_sig (leftover i) t.type >>= λ sig.
    process_exports leftover (i + 1) ts exports p' >>= λ (rest, p'').
    done (export_entry name t.type sig ++ rest, p'')

-- The slots allocated, by the numbers of imports and exports, and the message around the entries.
unfoldable pub init_room : ℕ → ℕ → ℕ
init_room imports exports = 2 + 3 + 5 + 13 * imports + 11 * exports

unfoldable pub init_message : Module → Message → Message → Message
init_message m imports exports =
    drv_atom
    ∷ atom_execution_result
    ∷ (imports
        ++ (drv_nil
            ∷ drv_list
            ∷ word (length m.imports + 1)
            ∷ (exports
                ++ (drv_nil ∷ drv_list ∷ word (length m.exports + 1) ∷ drv_tuple ∷ word 3 ∷ []))))

-- `drv_lock` and `drv_unlock` on `is_running`. A thread gets the lock only while nobody has it.
abbrev pub lock : Driver → Driver
lock d = record d { proc = record d.proc { locked = true } }

abbrev pub unlock : Driver → Driver
unlock d = record d { proc = record d.proc { locked = false } }

-- What the job does behind its message, before it gives the mutex back.
abbrev pub set_initialized : Driver → Driver
set_initialized d = record d {
  proc = record d.proc { current_import = stored none; is_initialized = true };
}

-- The part behind the creation of the instance.
unfoldable pub announce : (ℕ → Bytes) → Module → Message → Instance → Driver → Outcome Driver
unfolding process_exports init_room init_message
announce leftover m imports instance d =
    process_exports leftover 0 m.exports instance
      (record d.proc { instance_ = stored (some instance) })
    >>= λ (exports, p).
        fits_in (init_room (length m.imports) (length m.exports)) (init_message m imports exports)
        >>= λ msg. done (unlock (set_initialized (output_term msg (record d { proc = p }))))

-- `wasm_engine_new`, `wasm_store_new` and `wasm_byte_vec_new`.
unfoldable pub create_store : Driver → Driver
create_store d =
    let engine = d.objects in
    let store = create engine in
    record d {
      proc = record d.proc { engine = stored engine.next; store = stored store.next };
      objects = create (create store);
    }

-- An object is made: a module or an instance.
abbrev pub create_object : Driver → Driver
create_object d = record d { objects = create d.objects }

-- The deletions after a module could not be created; `binary` is the byte vector.
unfoldable pub delete_store : ℕ → Driver → Outcome Driver
delete_store binary d = delete binary d.objects >>= λ o. fetch d.proc.store >>= λ store.
    delete store o >>= λ o.
    fetch d.proc.engine >>= λ engine. delete engine o >>= λ o. done (record d { objects = o })

-- The instance, or `NULL`; `d` is the state in which the module was loaded.
unfoldable pub after_link :
    (ℕ → Bytes) → Module → Message → Driver → Option Instance → Outcome Driver
unfolding announce send_error
after_link leftover m imports d none = done (
    unlock (
      send_error (codes "Failed to create WASM instance (although module was created).") (record d {
        proc = record d.proc { instance_ = stored none; instance_object = stored none };
      })))
after_link leftover m imports d (some instance) = announce leftover m imports instance (
    create_object
      (record d { proc = record d.proc { instance_object = stored (some d.objects.next) } }))

-- The module, or `NULL`; `binary` is the byte vector.
unfoldable pub after_load : Loader → (ℕ → Bytes) → ℕ → Driver → Option Module → Outcome Driver
unfolding process_imports after_link delete_store send_error
after_load loader leftover binary d none =
    delete_store binary (
      send_error (codes "Failed to create module.")
        (record d { proc = record d.proc { module_ = stored none; module_object = stored none } }))
    >>= λ d'. done (unlock d')
after_load loader leftover binary d (some m) =
    process_imports loader m.imports >>= λ (imports, stubs).
    let (made, memories) = loader.instance_new m stubs d.memories in
    after_link leftover m imports
      (create_object (record d {
        proc = record d.proc {
          module_ = stored (some m);
          module_object = stored (some d.objects.next);
        };
        memories = memories;
      }))
      made

-- The job, run once it can have the mutex `is_running`.
unfoldable pub wasm_initialize_runtime :
    Loader → (ℕ → Bytes) → LoadWasmReq → Driver → Outcome Driver
unfolding create_store after_load
wasm_initialize_runtime loader leftover request d =
    after_load loader leftover (d.objects.next + 2) (create_store (lock d))
      (loader.module_new request.binary request.size)
