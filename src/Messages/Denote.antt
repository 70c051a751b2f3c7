-- ===== src/Messages/Denote.antt =====
-- The Erlang terms that the driver's messages stand for.
use hyper_beam.Common.{
  ℕ, zero, suc, ◌-◌, ◌≤◌, ◌≡◌, refl, ap, ◌∙◌, Bytes, List, [], ◌∷◌, ◌++◌, some, arith, take, length,
  take-length, Bool-cases, inl, inr, ◌==◌, true, false, Bool,
}
use mathlib.Core.List.{append_assoc}
use hyper_beam.Core.Values.{ValKind, WasmVal, low32, sign_extend, is_finite}
use hyper_beam.Core.Message.{codes, Message}
use hyper_beam.Core.Process.{ImportHook}
use hyper_beam.Helpers.Convert.{wasm_val_to_erl_term}
use hyper_beam.Helpers.Convert.Loop.{is_number, Numbers}
use hyper_beam.Helpers.Strings.{c_string, strlen}
use hyper_beam.Logging.{error_text, error_message}
use hyper_beam.Wasm.Import.{encode_vals, import_message}
use hyper_beam.Wasm.Execute.{execute_message}
use hyper_beam.Messages.Terms.{
  ErlTerm, atom, text, int, float, nil, tuple, erl_list, pushed, TermBuilder,
}

-- The values that can be sent as terms: integers and finite doubles. The short floats are left out:
-- the driver sends them as the double that their eight bytes hold.
abbrev pub is_sendable : ValKind → ℕ → Bool
is_sendable ValKind.i32 bits = true
is_sendable ValKind.i64 bits = true
is_sendable ValKind.f64 bits = is_finite bits
is_sendable _ bits = false

abbrev pub Sendable : List WasmVal → Type 0
Sendable [] = Unit
Sendable (v ∷ vs) = (is_sendable v.kind v.of ≡ true) × Sendable vs

sendable-is_number : (k : ValKind) (bits : ℕ) → is_sendable k bits ≡ true → is_number k ≡ true
sendable-is_number ValKind.i32 bits h = refl
sendable-is_number ValKind.i64 bits h = refl
sendable-is_number ValKind.f64 bits h = refl
sendable-is_number _ bits h = cc

pub Sendable-Numbers : (vs : List WasmVal) → Sendable vs → Numbers vs
Sendable-Numbers [] n = tt
Sendable-Numbers (v ∷ vs) n = (sendable-is_number v.kind v.of n.0, Sendable-Numbers vs n.1)

-- The term for such a value.
abbrev pub term_of : WasmVal → ErlTerm
term_of v = elim v.kind [
  | ValKind.i32 ↦ int (sign_extend (low32 v.of))
  | ValKind.i64 ↦ int v.of
  | ValKind.f64 ↦ float v.of
  | _ ↦ nil
]

abbrev pub terms_of : List WasmVal → List ErlTerm
terms_of [] = []
terms_of (v ∷ vs) = term_of v ∷ terms_of vs

length-terms_of : (vs : List WasmVal) → length (terms_of vs) ≡ length vs
length-terms_of [] = refl
length-terms_of (v ∷ vs) = ap suc (length-terms_of vs)

pub strlen-le : (s : Bytes) → strlen s ≤ length s
unfolding strlen c_string
strlen-le [] = omega arith
strlen-le (x ∷ xs) = ground (arith, strlen-le xs)

strlen-take : (n : ℕ) (s : Bytes) → strlen (take n (c_string s)) ≡ length (take n (c_string s))
unfolding strlen c_string
strlen-take zero s = refl
strlen-take (suc n) [] = refl
strlen-take (suc n) (x ∷ s) = elim (Bool-cases (x == 0)) [
  | inl z ↦ rw z
  | inr nz ↦ rw (nz, nz, strlen-take n s)
]

module _ (erts : TermBuilder) where
  open erts use {build, build_end, build_atom, build_string, build_list, build_tuple}

  build_val :
      (k : ValKind) (bits : ℕ) (m : Message) (st : List ErlTerm)
      → is_sendable k bits ≡ true
      → build (wasm_val_to_erl_term (record { kind = k; of = bits }) ++ m) st
        ≡ build m (term_of (record { kind = k; of = bits }) ∷ st)
  unfolding wasm_val_to_erl_term
  build_val ValKind.i32 bits m st h = erts.build_int _ m st
  build_val ValKind.i64 bits m st h = erts.build_int64 _ m st
  build_val ValKind.f64 bits m st h = erts.build_float _ m st h
  build_val _ bits m st h = cc

  build_vals :
      (vs : List WasmVal) (m : Message) (st : List ErlTerm)
      → Sendable vs
      → build (encode_vals vs ++ m) st ≡ build m (pushed (terms_of vs) st)
  unfolding encode_vals
  build_vals [] m st n = refl
  build_vals (v ∷ vs) m st n =
      rw (append_assoc (wasm_val_to_erl_term v) (encode_vals vs) m)
        (build_val v.kind v.of (encode_vals vs ++ m) st n.0 ∙ build_vals vs m (term_of v ∷ st) n.1)

  -- The message with the results of a call denotes `{execution_result, [Result, ...]}`, for results
  -- of the integer kinds and finite doubles.
  pub execute_message-denotes :
      (rs : List WasmVal)
      → Sendable rs
      → build (execute_message rs) []
        ≡ some
            (tuple (erl_list (atom (codes "execution_result") ∷ erl_list (terms_of rs) ∷ [])) ∷ [])
  unfolding execute_message
  execute_message-denotes rs n =
      build_atom _ _ []
      ∙ build_vals rs _ _ n
      ∙ build_list (terms_of rs) _ _ _ (omega (arith, length-terms_of rs))
      ∙ build_tuple (atom (codes "execution_result") ∷ erl_list (terms_of rs) ∷ []) 2 [] [] refl
      ∙ build_end _

  -- The message of a host call denotes `{import, Module, Field, [Arg, ...], Signature}`, for
  -- arguments of the integer kinds and finite doubles, with the texts up to their NUL; the signature
  -- lacks its last character.
  pub import_message-denotes :
      (hook : ImportHook) (args : List WasmVal)
      → Sendable args
      → build (import_message hook args) []
        ≡ some (
            tuple (
              erl_list (
                atom (codes "import")
                ∷ text (take (strlen hook.module_name) hook.module_name)
                ∷ text (take (strlen hook.field_name) hook.field_name)
                ∷ erl_list (terms_of args)
                ∷ text (take (strlen hook.signature - 1) hook.signature)
                ∷ []))
            ∷ [])
  unfolding import_message
  import_message-denotes hook args n =
      build_atom _ _ []
      ∙ build_string hook.module_name _ _ _ (strlen-le hook.module_name)
      ∙ build_string hook.field_name _ _ _ (strlen-le hook.field_name)
      ∙ build_vals args _ _ n
      ∙ build_list (terms_of args) _ _ _ (omega (arith, length-terms_of args))
      ∙ build_string hook.signature _ _ _ (omega (arith, strlen-le hook.signature))
      ∙ build_tuple (_ ∷ _ ∷ _ ∷ _ ∷ _ ∷ []) 5 [] [] refl
      ∙ build_end _

  -- An error message denotes `{error, Text}`, where the text is cut at its first NUL and at 255
  -- bytes.
  pub error_message-denotes :
      (s : Bytes)
      → build (error_message s) []
        ≡ some (tuple (erl_list (atom (codes "error") ∷ text (take 255 (c_string s)) ∷ [])) ∷ [])
  unfolding error_message
  error_message-denotes s =
      build_atom _ _ []
      ∙ build_string (error_text s) _ _ _ (strlen-le (error_text s))
      ∙ build_tuple (_ ∷ _ ∷ []) 2 [] [] refl
      ∙ build_end _
      ∙ ap (λ (t : Bytes). some (tuple (erl_list (atom (codes "error") ∷ text t ∷ [])) ∷ []))
          (rw (strlen-take 255 s) (take-length (take 255 (c_string s))))
