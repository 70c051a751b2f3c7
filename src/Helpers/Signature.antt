-- ===== src/Helpers/Signature.antt =====
-- native/hb_beamr/hb_helpers.c: the signature string of a function type.
pub mod Parse
use hyper_beam.Common.{
  ℕ, ◌+◌, Bytes, List, [], ◌∷◌, ◌++◌, Option, none, some, map, leb, if◌then◌else◌, length,
}
use hyper_beam.Core.Values.{ValKind}
use hyper_beam.Core.Runtime.{FuncType, ExternType}

unfoldable pub wasm_valtype_kind_to_char : ValKind → ℕ
wasm_valtype_kind_to_char ValKind.i32 = b'i'
wasm_valtype_kind_to_char ValKind.i64 = b'I'
wasm_valtype_kind_to_char ValKind.f32 = b'f'
wasm_valtype_kind_to_char ValKind.f64 = b'F'
wasm_valtype_kind_to_char ValKind.externref = b'e'
wasm_valtype_kind_to_char ValKind.v128 = b'v'
wasm_valtype_kind_to_char ValKind.funcref = b'f'
wasm_valtype_kind_to_char (ValKind.other _) = b'u'

-- The two loops over a vector of types.
unfoldable pub kind_chars : List ValKind → Bytes
unfolding wasm_valtype_kind_to_char
kind_chars [] = []
kind_chars (k ∷ ks) = wasm_valtype_kind_to_char k ∷ kind_chars ks

-- The bytes written to `type_str`, the NUL included; `none` where the function returns 0, and has
-- written nothing.
unfoldable pub get_function_sig : ExternType → Option Bytes
unfolding kind_chars
get_function_sig (ExternType.func t) = elim t.params [
  | none ↦ none
  | some ps ↦ elim t.results [
    | none ↦ none
    | some rs ↦ some (b'(' ∷ (kind_chars ps ++ (b')' ∷ (kind_chars rs ++ (0 ∷ [])))))
  ]
]
get_function_sig _ = none
