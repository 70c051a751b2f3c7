-- ===== src/Helpers/Convert/Loop.antt =====
-- `erl_terms_to_wasm_vals`: when the conversion of a list of terms succeeds, fails or faults.
use hyper_beam.Common.{
  ℕ, ◌/◌, ◌^◌, ◌≡◌, refl, ap, subst, ◌∙◌, Bool, true, false, List, [], ◌∷◌, ◌++◌, some, Cell,
  stored, Outcome, done, fault, ◌>>=◌, arith, length,
}
use mathlib.Core.List.{append-nil}
use hyper_beam.Core.Values.{ValKind, WasmVal, EiTerm, low32}
use hyper_beam.Helpers.Convert.{
  Status, success, failure, erl_term_to_wasm_val, convert_terms, erl_terms_to_wasm_vals,
}

-- The kinds that the driver converts.
abbrev pub is_number : ValKind → Bool
is_number ValKind.i32 = true
is_number ValKind.i64 = true
is_number ValKind.f32 = true
is_number ValKind.f64 = true
is_number _ = false

abbrev pub Numbers : List WasmVal → Type 0
Numbers [] = Unit
Numbers (v ∷ vs) = (is_number v.kind ≡ true) × Numbers vs

-- What a converted value holds: the kind stays, and the bits are those of the term, in the low half
-- only for the short kinds.
abbrev pub Bits : (ℕ → ℕ) → ValKind → ℕ → ℕ → ℕ → Type 0
Bits narrow ValKind.i32 old t new = (low32 new ≡ low32 t) × (new / 2 ^ 32 ≡ old / 2 ^ 32)
Bits narrow ValKind.i64 old t new = new ≡ t
Bits narrow ValKind.f32 old t new = (low32 new ≡ low32 (narrow t)) × (new / 2 ^ 32 ≡ old / 2 ^ 32)
Bits narrow ValKind.f64 old t new = new ≡ t
Bits narrow _ old t new = ⊥

-- The values `vs'` are the values `vs`, each converted from its term.
abbrev pub Converted : (ℕ → ℕ) → List WasmVal → List EiTerm → List WasmVal → Type 0
Converted narrow [] ts vs' = vs' ≡ []
Converted narrow (v ∷ vs) [] vs' = ⊥
Converted narrow (v ∷ vs) (t ∷ ts) [] = ⊥
Converted narrow (v ∷ vs) (t ∷ ts) (v' ∷ vs') =
    (v'.kind ≡ v.kind) × Bits narrow v.kind v.of t.value v'.of × Converted narrow vs ts vs'

-- An array of terms that were all decoded.
abbrev pub cells : List EiTerm → List (Cell EiTerm)
cells [] = []
cells (t ∷ ts) = stored t ∷ cells ts

bind_done : (o : Outcome (List WasmVal × Status)) → o ≡ (o >>= λ (vs, status). done (vs, status))
bind_done (done r) = refl
bind_done fault = refl

bind_bind :
    (o : Outcome (List WasmVal × Status)) (f g : List WasmVal × Status → List WasmVal × Status)
    → (o >>= (λ r. done (f r)) >>= λ r. done (g r)) ≡ (o >>= λ r. done (g (f r)))
bind_bind (done r) f g = refl
bind_bind fault f g = refl

module _ (narrow : ℕ → ℕ) where
  -- The conversion of one term of a number kind.
  one_term :
      (k : ValKind) (old : ℕ) (t : EiTerm)
      → is_number k ≡ true
      → (new : ℕ) × (erl_term_to_wasm_val narrow (record { kind = k; of = old }) t
          ≡ (record { kind = k; of = new }, success))
        × Bits narrow k old t.value new
  unfolding erl_term_to_wasm_val
  one_term ValKind.i32 old t h = (_, refl, (omega arith, omega arith))
  one_term ValKind.i64 old t h = (_, refl, refl)
  one_term ValKind.f32 old t h = (_, refl, (omega arith, omega arith))
  one_term ValKind.f64 old t h = (_, refl, refl)
  one_term _ old t h = cc

  other_term :
      (k : ValKind) (old : ℕ) (t : EiTerm)
      → is_number k ≡ false
      → erl_term_to_wasm_val narrow (record { kind = k; of = old }) t
        ≡ (record { kind = k; of = old }, failure)
  unfolding erl_term_to_wasm_val
  other_term ValKind.i32 old t h = cc
  other_term ValKind.i64 old t h = cc
  other_term ValKind.f32 old t h = cc
  other_term ValKind.f64 old t h = cc
  other_term _ old t h = refl

  -- One round of the loop, by what the conversion of the first term is.
  convert_round :
      (v : WasmVal) (vs : List WasmVal) (t : EiTerm) (cs : List (Cell EiTerm))
      {r : WasmVal × Status}
      → erl_term_to_wasm_val narrow v t ≡ r
      → convert_terms narrow (v ∷ vs) (stored t ∷ cs) ≡ elim r.1 [
        | failure ↦ done (r.0 ∷ vs, failure)
        | success ↦ convert_terms narrow vs cs >>= λ (vs', last). done (r.0 ∷ vs', last)
      ]
  unfolding convert_terms
  convert_round v vs t cs e =
      ap {B = Outcome (List WasmVal × Status)}
        (λ (r : WasmVal × Status). elim r.1 [
          | failure ↦ done (r.0 ∷ vs, failure)
          | success ↦ convert_terms narrow vs cs >>= λ (vs', last). done (r.0 ∷ vs', last)
        ])
        e

  -- The values of number kinds at the front, each with its term.
  convert_front :
      (front : List WasmVal) (ts : List EiTerm)
      → Numbers front
      → length front ≡ length ts
      → (front' : List WasmVal) × Converted narrow front ts front'
        × ((rest : List WasmVal) (cs : List (Cell EiTerm))
            → convert_terms narrow (front ++ rest) (cells ts ++ cs)
              ≡ (convert_terms narrow rest cs >>= λ (vs', status). done (front' ++ vs', status)))
  unfolding convert_terms
  convert_front [] [] n e = ([], refl, λ rest cs. bind_done (convert_terms narrow rest cs))
  convert_front [] (t ∷ ts) n e = absurd (omega arith)
  convert_front (v ∷ vs) [] n e = absurd (omega arith)
  convert_front (v ∷ vs) (t ∷ ts) n e =
      let (new, eq, bits) = one_term v.kind v.of t n.0 in
      let (vs', conv, go) = convert_front vs ts n.1 (omega arith) in
      (
        record { kind = v.kind; of = new } ∷ vs',
        (refl, bits, conv),
        λ rest cs.
            convert_round v (vs ++ rest) t (cells ts ++ cs) eq
            ∙ rw (go rest cs) (bind_bind (convert_terms narrow rest cs) _ _),
      )

  -- With a decoded term for each value, and values of number kinds, the conversion succeeds and
  -- each value holds the bits of its term; terms beyond the values are not looked at.
  pub terms_suffice :
      (vs : List WasmVal) (ts : List EiTerm) (extra : List (Cell EiTerm))
      → Numbers vs
      → length vs ≡ length ts
      → (vs' : List WasmVal) × (erl_terms_to_wasm_vals narrow vs (some (cells ts ++ extra))
          ≡ done (vs', success))
        × Converted narrow vs ts vs'
  unfolding erl_terms_to_wasm_vals convert_terms
  terms_suffice vs ts extra n e =
      let (vs', conv, go) = convert_front vs ts n e in
      (
        vs',
        subst (λ l. convert_terms narrow l (cells ts ++ extra) ≡ done (vs', success))
            (append-nil vs) (go [] extra ∙ ap (λ l. done (l, success)) (append-nil vs')),
        conv,
      )

  -- With fewer terms than values, all of number kinds, the conversion reads past the end of the
  -- array of terms.
  pub terms_missing :
      (front rest : List WasmVal) (v : WasmVal) (ts : List EiTerm)
      → Numbers front
      → length front ≡ length ts
      → erl_terms_to_wasm_vals narrow (front ++ (v ∷ rest)) (some (cells ts)) ≡ fault
  unfolding erl_terms_to_wasm_vals convert_terms
  terms_missing front rest v ts n e =
      subst (λ cs. convert_terms narrow (front ++ (v ∷ rest)) cs ≡ fault) (append-nil (cells ts))
        ((convert_front front ts n e).2 (v ∷ rest) [])

  -- A value of another kind ends the conversion with a failure: the values before it are
  -- converted, it and those behind it are as they were.
  pub terms_unsupported :
      (front rest : List WasmVal) (v : WasmVal) (ts : List EiTerm) (t : EiTerm)
      (extra : List (Cell EiTerm))
      → Numbers front
      → length front ≡ length ts
      → is_number v.kind ≡ false
      → (front' : List WasmVal) × (erl_terms_to_wasm_vals narrow
            (front ++ (v ∷ rest))
            (some (cells ts ++ (stored t ∷ extra)))
          ≡ done (front' ++ (v ∷ rest), failure))
        × Converted narrow front ts front'
  unfolding erl_terms_to_wasm_vals
  terms_unsupported front rest v ts t extra n e bad =
      let (front', conv, go) = convert_front front ts n e in
      (
        front',
        go (v ∷ rest) (stored t ∷ extra)
            ∙ rw (convert_round v rest t extra (other_term v.kind v.of t bad)),
        conv,
      )
