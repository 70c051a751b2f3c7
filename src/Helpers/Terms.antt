-- ===== src/Helpers/Terms.antt =====
-- native/hb_beamr/hb_helpers.c: the decoding of a list of Erlang terms, over the library `ei`.
pub mod Encodings
use hyper_beam.Common.{
  ℕ, zero, suc, Bytes, List, [], ◌∷◌, Option, none, some, Cell, junk, stored, Outcome, done, fault,
  ◌==◌, leb, ℤ, if◌then◌else◌,
}
use hyper_beam.Core.Values.{EiTerm}
use hyper_beam.Core.Process.{Terms}

-- What a decoding function stores (`none` if it fails and stores nothing), and the new index.
abbrev pub Decoded : Type 0 → Type 0
Decoded A = Option A × ℕ

-- The functions of `ei` that the driver calls, each on the buffer and the index to read from.
-- `get_type` stores a type and a size and moves no index; a bit string comes with its length in
-- bits.
pub record Ei : Type 0 where
  pub decode_version : Bytes → ℕ → Decoded ℕ
  pub decode_tuple_header : Bytes → ℕ → Decoded ℕ
  pub decode_list_header : Bytes → ℕ → Decoded ℕ
  pub decode_atom : Bytes → ℕ → Decoded Bytes
  pub decode_string : Bytes → ℕ → Decoded Bytes
  pub decode_binary : Bytes → ℕ → Decoded Bytes
  pub decode_bitstring : Bytes → ℕ → Decoded (Bytes × ℕ)
  pub decode_long : Bytes → ℕ → Decoded ℤ
  pub decode_ei_term : Bytes → ℕ → Decoded EiTerm
  pub get_type : Bytes → ℕ → Option (ℕ × ℕ)

-- The tags of the external term format.
abbrev pub erl_integer_ext : ℕ
erl_integer_ext = b'b'

abbrev pub erl_list_ext : ℕ
erl_list_ext = b'l'

abbrev pub erl_string_ext : ℕ
erl_string_ext = b'k'

abbrev pub to_cell {ℓ} : {A : Type ℓ} → Option A → Cell A
to_cell none = junk
to_cell (some a) = stored a

module _ (ei : Ei) (buff : Bytes) where
  -- The loop over the elements of a list: what is stored at each place, and the index after it.
  unfoldable pub decode_terms : ℕ → ℕ → List (Cell EiTerm) × ℕ
  decode_terms zero index = ([], index)
  decode_terms (suc n) index =
      let (t, index') = ei.decode_ei_term buff index in
      let (ts, last) = decode_terms n index' in (to_cell t ∷ ts, last)

  -- The loop over a list that came as a string.
  unfoldable pub byte_terms : ℕ → Option Bytes → List (Cell EiTerm)
  byte_terms zero s = []
  byte_terms (suc n) none = junk ∷ byte_terms n none
  byte_terms (suc n) (some []) = junk ∷ byte_terms n (some [])
  byte_terms (suc n) (some (c ∷ s)) =
      stored (record { ei_type = erl_integer_ext; value = c }) ∷ byte_terms n (some s)

  -- The list, or `none` for `NULL`, and the index. The array has as many places as `get_type`
  -- counted; a longer list would be written past its end.
  unfoldable pub decode_list : ℕ → Outcome (Terms × ℕ)
  unfolding decode_terms byte_terms
  decode_list index = elim (ei.get_type buff index) [
    | none ↦ done (none, index)
    | some (type, arity) ↦
        if type == erl_list_ext
        then (let (n, index') = ei.decode_list_header buff index in
            elim n [
              | none ↦ (let (ts, last) = decode_terms arity index' in done (some ts, last))
              | some count ↦
                  if leb count arity
                  then (let (ts, last) = decode_terms count index' in done (some ts, last))
                  else fault
            ])
        else if type == erl_string_ext
        then (let (s, last) = ei.decode_string buff index in done (some (byte_terms arity s), last))
        else done (none, index)
  ]
