-- ===== src/Client/Allocate.antt =====
-- src/hb_beamr_io.erl: `malloc`, `free` and `write_string`, which call functions of the module.
pub mod Laws
use hyper_beam.Common.{
  ℕ, suc, ◌+◌, ◌-◌, ◌^◌, ◌*◌, Bytes, List, [], ◌∷◌, ◌++◌, Option, none, some, ltb, ◌==◌,
  if◌then◌else◌, length, ℤ, pos, negsuc,
}
use hyper_beam.Core.Message.{codes}
use hyper_beam.Messages.Terms.{ErlTerm, atom, int}
use hyper_beam.Client.Session.{Value, integer, System, Action, ◌>>=◌, pure, raise, list_elements}
use hyper_beam.Client.Call.{named, plain_call}
use hyper_beam.Client.Io
use hyper_beam.Client.Io.{Answer, ok, error}

abbrev pub malloc_failed : ErlTerm
malloc_failed = atom (codes "malloc_failed")

-- The clauses for `{ok, [0]}` and `{ok, [Ptr]}`; another list is no match.
unfoldable pub pointer : ErlTerm → Answer ErlTerm
pointer (int w) = if w == 0 then error malloc_failed else ok (int w)
pointer p = ok p

unfoldable pub allocated : Option (List ErlTerm) → Action (Answer ErlTerm)
unfolding pointer
allocated (some (p ∷ [])) = pure (pointer p)
allocated _ = raise

-- The integer that a term of 64 bits is.
unfoldable pub signed : ℕ → ℤ
signed w = if ltb w (2 ^ 63) then pos w else negsuc (2 ^ 64 - w - 1)

module _ (sys : System) where
  unfoldable pub malloc : ℕ → ℤ → Action (Answer ErlTerm)
  unfolding plain_call allocated list_elements
  malloc fuel size = do
    result ← plain_call sys fuel (named (codes "malloc")) (integer size ∷ [])
    allocated (list_elements result)

  unfoldable pub free : ℕ → ℤ → Action (Unit {0})
  unfolding plain_call
  free fuel ptr = do result ← plain_call sys fuel (named (codes "free")) (integer ptr ∷ []); pure tt

  -- The result of the write, with the pointer if it succeeded.
  unfoldable pub with_pointer : ErlTerm → Answer (Unit {0}) → Action (Answer ErlTerm)
  with_pointer ptr (ok _) = pure (ok ptr)
  with_pointer ptr (error e) = pure (error e)

  -- `write` takes integers only as an offset.
  unfoldable pub write_at : Bytes → Answer ErlTerm → Action (Answer ErlTerm)
  unfolding Io.write with_pointer signed
  write_at string (ok (int w)) = Io.write sys (signed w) string >>= with_pointer (int w)
  write_at string (ok _) = raise
  write_at string (error e) = pure (error e)

  unfoldable pub write_string : ℕ → Bytes → Action (Answer ErlTerm)
  unfolding malloc write_at
  write_string fuel bytes = malloc fuel (pos (length bytes + 1)) >>= write_at (bytes ++ (0 ∷ []))
