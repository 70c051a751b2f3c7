-- ===== src/Checks/Codec.antt =====
-- An external term format that is easy to read: an instance of what is assumed of `term_to_binary`.
pub mod Laws
use hyper_beam.Common.{
  ℕ, zero, suc, ◌+◌, ◌-◌, ◌*◌, ◌^◌, ◌≡◌, refl, ap, subst, Bytes, List, [], ◌∷◌, ◌++◌, Option, none,
  some, arith, length, take, drop, drop-append, take-append, length-append, ℤ, pos, negsuc,
}
use mathlib.Core.List.{append_assoc}
use hyper_beam.Core.Values.{EiTerm}
use hyper_beam.Core.Message.{codes}
use hyper_beam.Helpers.Terms.{Ei, erl_integer_ext, erl_list_ext}
use hyper_beam.Helpers.Terms.Encodings.{Reads, no_more, one_term, EncodesList, as_list}
use hyper_beam.Beamr.Output.Headers.{Sends}
use hyper_beam.Client.Session.{
  Value, integer, double, other, Request, init, call, indirect_call, import_response, write, read,
  size, command, long_of, Codec,
}

-- A number for each command.
unfoldable pub tag : Request → ℕ
tag (init _ _) = 0
tag (call _ _) = 1
tag (indirect_call _ _) = 2
tag (import_response _) = 3
tag (write _ _) = 4
tag (read _ _) = 5
tag size = 6

unfoldable pub command_of : ℕ → Bytes
command_of zero = codes "init"
command_of (suc zero) = codes "call"
command_of (suc (suc zero)) = codes "indirect_call"
command_of (suc (suc (suc zero))) = codes "import_response"
command_of (suc (suc (suc (suc zero)))) = codes "write"
command_of (suc (suc (suc (suc (suc zero))))) = codes "read"
command_of _ = codes "size"

-- An integer takes two places: its sign and its size.
unfoldable pub long : ℤ → Bytes
long (pos n) = 0 ∷ n ∷ []
long (negsuc n) = 1 ∷ n ∷ []

unfoldable pub read_long : Bytes → Option ℤ
read_long (zero ∷ n ∷ r) = long_of (pos n)
read_long (suc _ ∷ n ∷ r) = long_of (negsuc n)
read_long _ = none

-- So does a value.
unfoldable pub type_of : Value → ℕ
type_of (integer z) = erl_integer_ext
type_of (double w) = b'F'
type_of (other t) = b'j'

unfoldable pub bits_of : Value → ℕ
bits_of (integer (pos n)) = n
bits_of (integer (negsuc n)) = 2 ^ 64 - n - 1
bits_of (double w) = w
bits_of (other t) = 0

unfoldable pub encoded : List Value → Bytes
unfolding type_of bits_of
encoded [] = []
encoded (v ∷ vs) = type_of v ∷ bits_of v ∷ encoded vs

unfoldable pub ei_terms : List Value → List EiTerm
unfolding type_of bits_of
ei_terms [] = []
ei_terms (v ∷ vs) = record { ei_type = type_of v; value = bits_of v } ∷ ei_terms vs

unfoldable pub binary_of : Request → Bytes
unfolding tag long encoded
binary_of (init b m) = 0 ∷ b
binary_of (call name vs) = 1 ∷ length name ∷ (name ++ (length vs ∷ encoded vs))
binary_of (indirect_call i vs) = 2 ∷ []
binary_of (import_response vs) = 3 ∷ length vs ∷ encoded vs
binary_of (write p src) = 4 ∷ (long p ++ src)
binary_of (read p n) = 5 ∷ (long p ++ long n)
binary_of size = 6 ∷ []

-- The decoders look at what stands from the index on.
unfoldable pub atom_at : Bytes → Option Bytes
unfolding command_of
atom_at [] = none
atom_at (t ∷ b) = some (command_of t)

unfoldable pub text_at : Bytes → Option Bytes × ℕ
text_at [] = (none, 0)
text_at (n ∷ b) = (some (take n b), suc (suc n))

unfoldable pub term_at : Bytes → Option EiTerm
term_at (t ∷ v ∷ b) = some (record { ei_type = t; value = v })
term_at _ = none

unfoldable pub count_at : Bytes → Option ℕ
count_at [] = none
count_at (n ∷ b) = some n

unfoldable pub type_at : Bytes → Option (ℕ × ℕ)
type_at [] = none
type_at (n ∷ b) = some (erl_list_ext, n)

abbrev pub plain_ei : Ei
plain_ei = record {
  decode_version = λ b i. (some 131, 1);
  decode_tuple_header = λ b i. (some 2, i);
  decode_list_header = λ b i. (count_at (drop i b), suc i);
  decode_atom = λ b i. (atom_at b, 1);
  decode_string = λ b i. text_at (drop i b);
  decode_binary = λ b i. (some (drop i b), 1);
  decode_bitstring = λ b i. (some (drop i b, 8 * length (drop i b)), 1);
  decode_long = λ b i. (read_long (drop i b), i + 2);
  decode_ei_term = λ b i. (term_at (drop i b), suc (suc i));
  get_type = λ b i. type_at (drop i b);
}

unfoldable pub behind : Request → ℕ
behind (call name vs) = suc (suc (length name))
behind _ = 3

unfoldable pub end_from : ℕ → List Value → ℕ
end_from i [] = i
end_from i (v ∷ vs) = end_from (suc (suc i)) vs

unfoldable pub end : Request → ℕ
unfolding end_from behind
end (call name vs) = end_from (suc (suc (suc (length name)))) vs
end (import_response vs) = end_from 2 vs
end _ = 0
