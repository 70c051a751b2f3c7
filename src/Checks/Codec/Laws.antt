-- ===== src/Checks/Codec/Laws.antt =====
-- The laws of the format.
use hyper_beam.Common.{
  ℕ, suc, ◌*◌, ◌≡◌, refl, ap, subst, Bytes, List, [], ◌∷◌, ◌++◌, some, arith, length, drop-append,
  take-append, length-append, ℤ, pos, negsuc,
}
use mathlib.Core.List.{append_assoc}
use hyper_beam.Helpers.Terms.Encodings.{Reads, no_more, one_term, EncodesList, as_list}
use hyper_beam.Beamr.Output.Headers.{Sends}
use hyper_beam.Client.Session.{
  Value, Request, init, call, indirect_call, import_response, write, read, size, command, long_of,
  Codec,
}
use hyper_beam.Checks.Codec.{
  tag, command_of, long, read_long, type_of, bits_of, encoded, ei_terms, binary_of, atom_at,
  text_at, term_at, count_at, type_at, plain_ei, behind, end_from, end,
}

pub length-ei_terms : (vs : List Value) → length (ei_terms vs) ≡ length vs
unfolding ei_terms
length-ei_terms [] = refl
length-ei_terms (v ∷ vs) = ap suc (length-ei_terms vs)

reads :
    (pre : Bytes) (i : ℕ) (vs : List Value)
    → length pre ≡ i
    → Reads plain_ei (pre ++ encoded vs) i (ei_terms vs) (end_from i vs)
unfolding encoded ei_terms end_from term_at
reads pre i [] e = no_more
reads pre i (v ∷ vs) e =
    let next : Bytes = pre ++ (type_of v ∷ bits_of v ∷ []) in
    let rest =
      reads next (suc (suc i)) vs
        (omega (arith, length-append {0} pre (type_of v ∷ bits_of v ∷ []))) in
    one_term (rw (← e, drop-append pre (type_of v ∷ bits_of v ∷ encoded vs)) refl) (
      subst
        (λ (b : Bytes). Reads plain_ei b (suc (suc i)) (ei_terms vs) (end_from (suc (suc i)) vs))
        (append_assoc pre (type_of v ∷ bits_of v ∷ []) (encoded vs)) rest)

-- The place of a list behind its length.
listed :
    (pre : Bytes) (i : ℕ) (vs : List Value)
    → length pre ≡ i
    → EncodesList plain_ei (pre ++ (length vs ∷ encoded vs)) i (ei_terms vs) (end_from (suc i) vs)
unfolding type_at count_at
listed pre i vs e =
    let count = length-ei_terms vs in
    as_list (rw (← e, drop-append pre (length vs ∷ encoded vs), count) refl)
      (rw (← e, drop-append pre (length vs ∷ encoded vs), count) refl)
      (subst (λ (b : Bytes). Reads plain_ei b (suc i) (ei_terms vs) (end_from (suc i) vs))
        (append_assoc pre (length vs ∷ []) (encoded vs))
        (reads (pre ++ (length vs ∷ [])) (suc i) vs
          (omega (arith, length-append {0} pre (length vs ∷ [])))))

pub sends : (r : Request) → Sends plain_ei (binary_of r) (command r) 1
unfolding binary_of atom_at command_of tag
sends (init _ _) = record {
  version = 131;
  behind_version = 1;
  version_is = refl;
  command_is = refl;
}
sends (call _ _) = record {
  version = 131;
  behind_version = 1;
  version_is = refl;
  command_is = refl;
}
sends (indirect_call _ _) = record {
  version = 131;
  behind_version = 1;
  version_is = refl;
  command_is = refl;
}
sends (import_response _) = record {
  version = 131;
  behind_version = 1;
  version_is = refl;
  command_is = refl;
}
sends (write _ _) = record {
  version = 131;
  behind_version = 1;
  version_is = refl;
  command_is = refl;
}
sends (read _ _) = record {
  version = 131;
  behind_version = 1;
  version_is = refl;
  command_is = refl;
}
sends size = record { version = 131; behind_version = 1; version_is = refl; command_is = refl }

pub pointer_written :
    (p : ℤ) (src : Bytes)
    → plain_ei.decode_long
        (binary_of (write p src))
        (plain_ei.decode_tuple_header (binary_of (write p src)) 1).1
      ≡ (long_of p, behind (write p src))
unfolding binary_of long read_long behind
pointer_written (pos n) src = refl
pointer_written (negsuc n) src = refl

pub bytes_written :
    (p : ℤ) (src : Bytes)
    → (plain_ei.decode_bitstring (binary_of (write p src)) (behind (write p src))).0
      ≡ some (src, 8 * length src)
unfolding binary_of long behind
bytes_written (pos n) src = refl
bytes_written (negsuc n) src = refl

pub pointer_read :
    (p n : ℤ)
    → plain_ei.decode_long
        (binary_of (read p n))
        (plain_ei.decode_tuple_header (binary_of (read p n)) 1).1
      ≡ (long_of p, behind (read p n))
unfolding binary_of long read_long behind
pointer_read (pos p) n = refl
pointer_read (negsuc p) n = refl

pub size_read :
    (p n : ℤ) → (plain_ei.decode_long (binary_of (read p n)) (behind (read p n))).0 ≡ long_of n
unfolding binary_of long read_long behind
size_read (pos p) (pos n) = refl
size_read (negsuc p) (pos n) = refl
size_read (pos p) (negsuc n) = refl
size_read (negsuc p) (negsuc n) = refl

pub name_called :
    (name : Bytes) (vs : List Value)
    → plain_ei.decode_string (binary_of (call name vs)) 1 ≡ (some name, behind (call name vs))
unfolding binary_of text_at behind
name_called name vs = rw (take-append name (length vs ∷ encoded vs)) refl

pub args_called :
    (name : Bytes) (vs : List Value)
    → EncodesList plain_ei
        (binary_of (call name vs))
        (behind (call name vs))
        (ei_terms vs)
        (end (call name vs))
unfolding binary_of behind end
args_called name vs = listed (1 ∷ length name ∷ name) (suc (suc (length name))) vs refl

pub terms_answered :
    (vs : List Value)
    → EncodesList plain_ei
        (binary_of (import_response vs))
        1
        (ei_terms vs)
        (end (import_response vs))
unfolding binary_of end
terms_answered vs = listed (3 ∷ []) 1 vs refl

abbrev pub plain_codec : Codec plain_ei
plain_codec = record {
  term_to_binary = binary_of;
  index = λ r. 1;
  sends = sends;
  behind = behind;
  terms = ei_terms;
  length-terms = length-ei_terms;
  end = end;
  pointer_written = pointer_written;
  bytes_written = λ p src h. bytes_written p src;
  pointer_read = pointer_read;
  size_read = λ p n h. size_read p n;
  name_called = λ name vs h. name_called name vs;
  args_called = λ name vs h n v. args_called name vs;
  terms_answered = λ vs n v. terms_answered vs;
}
