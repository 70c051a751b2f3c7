-- ===== src/Messages/Echo.antt =====
-- native/hb_beamr/hb_helpers.c: a term on its way from Erlang into a WebAssembly value and back.
use hyper_beam.Common.{ℕ, ◌≡◌, ap, ◌∙◌, Bool, true, false, [], ◌∷◌, some, if◌then◌else◌, ◌==◌}
use hyper_beam.Core.Values.{ValKind, EiTerm, is_finite}
use hyper_beam.Helpers.Convert.{erl_term_to_wasm_val, wasm_val_to_erl_term}
use hyper_beam.Helpers.Convert.Echo.{val, FitsInt, echo_bits}
use hyper_beam.Messages.Terms.{ErlTerm, int, float, TermBuilder}

-- The tags of the external term format for integers that fit an `ei_term`, and for floats.
abbrev pub is_integer : EiTerm → Bool
is_integer t =
    if t.ei_type == b'a' then true else if t.ei_type == b'b' then true else t.ei_type == b'n'

abbrev pub is_float : EiTerm → Bool
is_float t = if t.ei_type == b'F' then true else t.ei_type == b'c'

-- The term that `ei` has decoded to this.
abbrev pub decoded_from : EiTerm → ErlTerm
decoded_from t = if is_integer t then int t.value else float t.value

-- The terms that suit a kind: integers for the integer kinds, of 32 bits for `i32`, and floats for
-- `f64`. The short floats are left out.
abbrev pub SuitsKind : ValKind → EiTerm → Type 0
SuitsKind ValKind.i32 t = (is_integer t ≡ true) × FitsInt t.value
SuitsKind ValKind.i64 t = is_integer t ≡ true
SuitsKind ValKind.f64 t = (is_integer t ≡ false) × (is_float t ≡ true) × (is_finite t.value ≡ true)
SuitsKind _ t = ⊥

module _ (erts : TermBuilder) (narrow : ℕ → ℕ) where
  -- A term that suits the kind of a value, put into the value and sent back, arrives as the term that
  -- it was. What the value held before plays no part.
  pub echo_lem :
      (k : ValKind) (old : ℕ) (t : EiTerm)
      → SuitsKind k t
      → erts.build (wasm_val_to_erl_term (erl_term_to_wasm_val narrow (val k old) t).0) []
        ≡ some (decoded_from t ∷ [])
  echo_lem ValKind.i32 old t h =
      ap (λ m. erts.build m []) (echo_bits narrow ValKind.i32 old t h.1)
      ∙ erts.build_int t.value [] []
      ∙ erts.build_end _
      ∙ rw h.0
  echo_lem ValKind.i64 old t h =
      ap (λ m. erts.build m []) (echo_bits narrow ValKind.i64 old t tt)
      ∙ erts.build_int64 t.value [] []
      ∙ erts.build_end _
      ∙ rw h
  echo_lem ValKind.f64 old t h =
      ap (λ m. erts.build m []) (echo_bits narrow ValKind.f64 old t tt)
      ∙ erts.build_float t.value [] [] h.2
      ∙ erts.build_end _
      ∙ rw h.0
  echo_lem _ old t h = absurd h
