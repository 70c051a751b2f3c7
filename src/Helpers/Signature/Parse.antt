-- ===== src/Helpers/Signature/Parse.antt =====
-- What a signature string tells of a function type, and the room it takes.
use hyper_beam.Common.{
  ℕ, ◌+◌, ◌≡◌, refl, true, false, Bytes, List, [], ◌∷◌, ◌++◌, Option, none, some, arith, ◌==◌, leb,
  if◌then◌else◌, length, length-append,
}
use hyper_beam.Core.Values.{ValKind}
use hyper_beam.Core.Runtime.{ExternType}
use hyper_beam.Helpers.Signature.{wasm_valtype_kind_to_char, kind_chars, get_function_sig}
use hyper_beam.Helpers.Convert.Loop.{is_number}

-- A reader of signatures: the kinds up to a stop character, and the rest behind it.
unfoldable pub char_kind : ℕ → ValKind
char_kind c =
    if c == b'i'
    then ValKind.i32
    else if c == b'I'
    then ValKind.i64
    else if c == b'f'
    then ValKind.f32
    else if c == b'F'
    then ValKind.f64
    else ValKind.other c

unfoldable pub parse_kinds : ℕ → Bytes → List ValKind × Bytes
unfolding char_kind
parse_kinds stop [] = ([], [])
parse_kinds stop (c ∷ s) =
    let (ks, rest) = parse_kinds stop s in if c == stop then ([], s) else (char_kind c ∷ ks, rest)

unfoldable pub parse_sig : Bytes → Option (List ValKind × List ValKind)
unfolding parse_kinds
parse_sig [] = none
parse_sig (c ∷ s) =
    let (params, rest) = parse_kinds b')' s in
    let (results, _) = parse_kinds 0 rest in if c == b'(' then some (params, results) else none

abbrev pub NumberKinds : List ValKind → Type 0
NumberKinds [] = Unit
NumberKinds (k ∷ ks) = (is_number k ≡ true) × NumberKinds ks

abbrev pub func_type : List ValKind → List ValKind → ExternType
func_type ps rs = ExternType.func (record { params = some ps; results = some rs })

kind_char :
    (k : ValKind)
    → is_number k ≡ true
    → (char_kind (wasm_valtype_kind_to_char k) ≡ k)
      × ((wasm_valtype_kind_to_char k == b')') ≡ false)
      × ((wasm_valtype_kind_to_char k == 0) ≡ false)
unfolding char_kind wasm_valtype_kind_to_char
kind_char ValKind.i32 h = (refl, refl, refl)
kind_char ValKind.i64 h = (refl, refl, refl)
kind_char ValKind.f32 h = (refl, refl, refl)
kind_char ValKind.f64 h = (refl, refl, refl)
kind_char _ h = cc

kinds_closing :
    (ks : List ValKind) (rest : Bytes)
    → NumberKinds ks
    → parse_kinds b')' (kind_chars ks ++ (b')' ∷ rest)) ≡ (ks, rest)
unfolding kind_chars parse_kinds
kinds_closing [] rest h = refl
kinds_closing (k ∷ ks) rest h =
    rw (kinds_closing ks rest h.1, (kind_char k h.0).1, (kind_char k h.0).0)

kinds_nul :
    (ks : List ValKind) (rest : Bytes)
    → NumberKinds ks
    → parse_kinds 0 (kind_chars ks ++ (0 ∷ rest)) ≡ (ks, rest)
unfolding kind_chars parse_kinds
kinds_nul [] rest h = refl
kinds_nul (k ∷ ks) rest h = rw (kinds_nul ks rest h.1, (kind_char k h.0).2, (kind_char k h.0).0)

-- The signature of a function on the four number kinds determines its type: it can be read back.
pub parse-get_function_sig :
    (ps rs : List ValKind)
    → NumberKinds ps
    → NumberKinds rs
    → (s : Bytes) × (get_function_sig (func_type ps rs) ≡ some s) × (parse_sig s ≡ some (ps, rs))
unfolding get_function_sig parse_sig
parse-get_function_sig ps rs hp hr =
    (_, refl, rw (kinds_closing ps (kind_chars rs ++ (0 ∷ [])) hp, kinds_nul rs [] hr))

length-kind_chars : (ks : List ValKind) → length (kind_chars ks) ≡ length ks
unfolding kind_chars
length-kind_chars [] = refl
length-kind_chars (k ∷ ks) = omega (arith, length-kind_chars ks)

-- A signature takes three bytes more than the type has parameters and results, whatever the kinds:
-- it fits the callers' buffer of 256 bytes exactly if these are at most 253 together.
pub length-get_function_sig :
    (ps rs : List ValKind)
    → (s : Bytes) × (get_function_sig (func_type ps rs) ≡ some s)
      × (length s ≡ length ps + length rs + 3)
      × (leb (length s) 256 ≡ leb (length ps + length rs) 253)
unfolding get_function_sig
length-get_function_sig ps rs =
    let s : Bytes = b'(' ∷ (kind_chars ps ++ (b')' ∷ (kind_chars rs ++ (0 ∷ [])))) in
    let e : length s ≡ length ps + length rs + 3 = omega (
      arith,
      length-append {0} (kind_chars ps) (b')' ∷ (kind_chars rs ++ (0 ∷ []))),
      length-append {0} (kind_chars rs) (0 ∷ []),
      length-kind_chars ps,
      length-kind_chars rs,
    ) in
    (s, refl, e, ground (arith, e))
