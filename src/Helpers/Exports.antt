-- ===== src/Helpers/Exports.antt =====
-- native/hb_beamr/hb_helpers.c: searches among the exports of an instance.
pub mod Search
use hyper_beam.Common.{
  ℕ, zero, suc, ◌+◌, ◌-◌, ◌*◌, ◌%◌, ◌^◌, Bool, true, false, ◌&&◌, Bytes, List, [], ◌∷◌, Option,
  none, some, Outcome, done, fault, ◌>>=◌, fetch, ◌==◌, if◌then◌else◌, length, get_elem?,
}
use hyper_beam.Core.Runtime.{Func, Extern, WasmName, ExportType, Instance, Module, Memory}
use hyper_beam.Core.Process.{Proc, Driver}
use hyper_beam.Helpers.Strings.{strlen, strncmp_eq}

-- The test on the name of an export; a `NULL` name fails it.
unfoldable pub export_matches : Bytes → Option WasmName → Bool
unfolding strlen strncmp_eq
export_matches target none = false
export_matches target (some name) =
    (length name == strlen target + 1) && strncmp_eq (length name - 1) name target

-- The loop: externals and export types go in step, and an external function with no export type at
-- its index is a read out of bounds.
unfoldable pub find_function : Bytes → List Extern → List ExportType → Outcome (Option Func)
unfolding export_matches
find_function target [] ts = done none
find_function target (Extern.func f ∷ es) [] = fault
find_function target (Extern.func f ∷ es) (t ∷ ts) =
    let rest = find_function target es ts in
    if export_matches target t.name then done (some f) else rest
find_function target (Extern.global ∷ es) [] = find_function target es []
find_function target (Extern.global ∷ es) (t ∷ ts) = find_function target es ts
find_function target (Extern.table _ ∷ es) [] = find_function target es []
find_function target (Extern.table _ ∷ es) (t ∷ ts) = find_function target es ts
find_function target (Extern.memory _ ∷ es) [] = find_function target es []
find_function target (Extern.memory _ ∷ es) (t ∷ ts) = find_function target es ts

-- A pointer that must not be `NULL`.
abbrev pub deref {ℓ} : {A : Type ℓ} → Option A → Outcome A
deref none = fault
deref (some a) = done a

unfoldable pub get_exported_function : Proc → Bytes → Outcome (Option Func)
get_exported_function p target = fetch p.instance_ >>= λ i. deref i >>= λ exports.
    fetch p.module_ >>= λ m. deref m >>= λ types. find_function target exports types.exports

-- The loop of `get_memory`; the result is a reference into the store.
unfoldable pub first_memory : List Extern → Option ℕ
first_memory [] = none
first_memory (Extern.memory a ∷ es) = some a
first_memory (Extern.func _ ∷ es) = first_memory es
first_memory (Extern.global ∷ es) = first_memory es
first_memory (Extern.table _ ∷ es) = first_memory es

unfoldable pub get_memory : Proc → Outcome (Option ℕ)
unfolding first_memory
get_memory p = fetch p.instance_ >>= λ i. deref i >>= λ exports. done (first_memory exports)

-- What a reference to a memory stands for; `NULL` and a dangling reference are faults.
unfoldable pub memory_at : List Memory → Option ℕ → Outcome Memory
memory_at ms none = fault
memory_at ms (some a) = deref (get_elem? ms a)

-- `wasm_memory_size` returns a `uint32_t`, so the product is one too.
unfoldable pub get_memory_size : Driver → Outcome ℕ
unfolding get_memory memory_at
get_memory_size d =
    get_memory d.proc >>= λ r. memory_at d.memories r >>= λ m. done (m.pages * 65536 % 2 ^ 32)
