-- ===== src/Helpers/Convert.antt =====
-- native/hb_beamr/hb_helpers.c: names of kinds, and the conversions between WebAssembly values and
-- Erlang terms.
pub mod Echo
pub mod Loop
use hyper_beam.Common.{
  ℕ, Bytes, List, [], ◌∷◌, ◌++◌, Option, none, some, Cell, junk, stored, Outcome, done, fault,
  ◌>>=◌,
}
use hyper_beam.Core.Values.{ValKind, WasmVal, EiTerm, low32, put_low32, sign_extend}
use hyper_beam.Core.Message.{codes, Message, drv_int, drv_int64, drv_float, value_at, word}
use hyper_beam.Core.Runtime.{ExternType}
use hyper_beam.Core.Process.{Terms}

-- The results `0` and `-1` of the C functions.
pub data Status : Type 0 where
  success failure : Status

unfoldable pub get_wasm_type_name : ValKind → Bytes
get_wasm_type_name ValKind.i32 = codes "i32"
get_wasm_type_name ValKind.i64 = codes "i64"
get_wasm_type_name ValKind.f32 = codes "f32"
get_wasm_type_name ValKind.f64 = codes "f64"
get_wasm_type_name _ = codes "unknown"

unfoldable pub wasm_externtype_to_kind_string : ExternType → Bytes
wasm_externtype_to_kind_string (ExternType.func _) = codes "func"
wasm_externtype_to_kind_string ExternType.global = codes "global"
wasm_externtype_to_kind_string ExternType.table = codes "table"
wasm_externtype_to_kind_string ExternType.memory = codes "memory"
wasm_externtype_to_kind_string ExternType.other = codes "unknown"

-- The slots that are written; the C function returns their number. The pointers that it stores
-- point at the union, so `value_at` holds all eight bytes of it.
unfoldable pub wasm_val_to_erl_term : WasmVal → Message
wasm_val_to_erl_term v = elim v.kind [
  | ValKind.i32 ↦ drv_int ∷ word (sign_extend (low32 v.of)) ∷ []
  | ValKind.i64 ↦ drv_int64 ∷ value_at v.of ∷ []
  | ValKind.f32 ↦ drv_float ∷ value_at v.of ∷ []
  | ValKind.f64 ↦ drv_float ∷ value_at v.of ∷ []
  | _ ↦ []
]

-- The conversion of a `double` to a `float`, on bit patterns.
module _ (narrow : ℕ → ℕ) where
  unfoldable pub erl_term_to_wasm_val : WasmVal → EiTerm → WasmVal × Status
  erl_term_to_wasm_val v t = elim v.kind [
    | ValKind.i32 ↦ (record v { of = put_low32 v.of (low32 t.value) }, success)
    | ValKind.i64 ↦ (record v { of = t.value }, success)
    | ValKind.f32 ↦ (record v { of = put_low32 v.of (narrow t.value) }, success)
    | ValKind.f64 ↦ (record v { of = t.value }, success)
    | _ ↦ (v, failure)
  ]

  -- The loop of `erl_terms_to_wasm_vals` from one index on: an unsupported kind ends it with what
  -- was converted so far. An element past the end of the array, or never decoded, is a fault.
  unfoldable pub convert_terms : List WasmVal → List (Cell EiTerm) → Outcome (List WasmVal × Status)
  convert_terms [] ts = done ([], success)
  convert_terms (v ∷ vs) [] = fault
  convert_terms (v ∷ vs) (junk ∷ ts) = fault
  convert_terms (v ∷ vs) (stored t ∷ ts) =
      let (v', status) = erl_term_to_wasm_val v t in
      elim status [
        | failure ↦ done (v' ∷ vs, failure)
        | success ↦ convert_terms vs ts >>= λ (vs', last). done (v' ∷ vs', last)
      ]

  -- A `NULL` array is a fault at its first element.
  unfoldable pub erl_terms_to_wasm_vals : List WasmVal → Terms → Outcome (List WasmVal × Status)
  unfolding convert_terms
  erl_terms_to_wasm_vals vs none = convert_terms vs []
  erl_terms_to_wasm_vals vs (some ts) = convert_terms vs ts
