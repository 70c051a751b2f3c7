-- ===== src/Helpers/Terms/Encodings.antt =====
-- native/hb_beamr/hb_helpers.c: what `decode_list` makes of the two encodings that a list of
-- integers has in the external term format: a list of terms, or a string of bytes.
use hyper_beam.Common.{ℕ, ◌≡◌, refl, Bytes, List, [], ◌∷◌, some, done, arith, length, map}
use hyper_beam.Core.Values.{EiTerm}
use hyper_beam.Helpers.Convert.Loop.{cells}
use hyper_beam.Helpers.Terms.{
  Ei, erl_integer_ext, erl_list_ext, erl_string_ext, decode_terms, byte_terms, decode_list,
}

-- From an index on, `ei` decodes these terms one after the other.
pub data Reads (ei : Ei) (buff : Bytes) : ℕ → List EiTerm → ℕ → Type 0 where
  no_more : {i : ℕ} → Reads ei buff i [] i
  one_term :
      {i j k : ℕ} {t : EiTerm} {ts : List EiTerm}
      → ei.decode_ei_term buff i ≡ (some t, j)
      → Reads ei buff j ts k
      → Reads ei buff i (t ∷ ts) k

-- The term for a small integer.
abbrev pub byte_term : ℕ → EiTerm
byte_term c = record { ei_type = erl_integer_ext; value = c }

-- At an index there is a list with these terms, in one of its encodings. Its elements end at another
-- index, where a list of terms has its tail and a string is over.
pub data EncodesList (ei : Ei) (buff : Bytes) (i : ℕ) : List EiTerm → ℕ → Type 0 where
  as_list :
      {j k : ℕ} {ts : List EiTerm}
      → ei.get_type buff i ≡ some (erl_list_ext, length ts)
      → ei.decode_list_header buff i ≡ (some (length ts), j)
      → Reads ei buff j ts k
      → EncodesList ei buff i ts k
  as_string :
      {k : ℕ} (s : Bytes)
      → ei.get_type buff i ≡ some (erl_string_ext, length s)
      → ei.decode_string buff i ≡ (some s, k)
      → EncodesList ei buff i (map byte_term s) k

decode_terms-cells :
    {ei : Ei} {buff : Bytes} {i k : ℕ} {ts : List EiTerm}
    → Reads ei buff i ts k
    → decode_terms ei buff (length ts) i ≡ (cells ts, k)
unfolding decode_terms
decode_terms-cells no_more = refl
decode_terms-cells (one_term e r) = rw (e, decode_terms-cells r) refl

byte_terms-cells :
    (ei : Ei) (buff s : Bytes) → byte_terms ei buff (length s) (some s) ≡ cells (map byte_term s)
unfolding byte_terms
byte_terms-cells ei buff [] = refl
byte_terms-cells ei buff (c ∷ s) = rw (byte_terms-cells ei buff s) refl

-- A list is decoded to its terms, all of them stored and in order, whichever of its two encodings it
-- comes in. The index is moved behind its elements: to the tail of a list of terms, which is not
-- decoded, and behind a string.
pub decode_list_lem :
    (ei : Ei) (buff : Bytes) {i k : ℕ} {ts : List EiTerm}
    → EncodesList ei buff i ts k
    → decode_list ei buff i ≡ done (some (cells ts), k)
unfolding decode_list
decode_list_lem ei buff (as_list t h r) = ground (arith, t, h, decode_terms-cells r)
decode_list_lem ei buff (as_string s t d) = ground (arith, t, d, byte_terms-cells ei buff s)
