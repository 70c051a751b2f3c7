-- ===== src/Client/Io.antt =====
-- src/hb_beamr_io.erl: `size`, `write`, `read` and `read_string`.
pub mod Commands
pub mod Untouched
pub mod Chunks
pub mod Strings
pub mod Offsets
use hyper_beam.Common.{
  ℕ, zero, suc, ◌+◌, Bool, true, false, Bytes, List, [], ◌∷◌, ◌++◌, Option, none, some, ◌==◌,
  if◌then◌else◌, ℤ, ◌+ℤ◌,
}
use hyper_beam.Core.Message.{codes}
use hyper_beam.Messages.Terms.{ErlTerm, atom, binary}
use hyper_beam.Client.Session.{
  Request, System, Flow, unfinished, Action, ◌>>=◌, ◌>>◌, pure, raise, bytes_eq, tagged, receive,
}
use hyper_beam.Client.Worker.{wasm_send}

-- `ok` with a value, or `error` with a reason.
pub data Answer (A : Type 0) : Type 0 where
  ok : A → Answer A
  error : ErlTerm → Answer A

-- The patterns of the receives.
abbrev pub only : Option (List ErlTerm) → Option ErlTerm
only (some (x ∷ [])) = some x
only _ = none

unfoldable pub execution_result : ErlTerm → Option ErlTerm
unfolding tagged
execution_result m = only (tagged (codes "execution_result") m)

unfoldable pub error_reason : ErlTerm → Option ErlTerm
unfolding tagged
error_reason m = only (tagged (codes "error") m)

unfoldable pub is_ok : ErlTerm → Bool
unfolding bytes_eq
is_ok (atom a) = bytes_eq (codes "ok") a
is_ok _ = false

-- The first clause that fits, else an error.
abbrev pub or_error : {A : Type 0} → Option A → Option ErlTerm → Option (Answer A)
or_error (some a) e = some (ok a)
or_error none (some e) = some (error e)
or_error none none = none

unfoldable pub read_answer : ErlTerm → Option (Answer ErlTerm)
unfolding execution_result error_reason
read_answer m = or_error (execution_result m) (error_reason m)

unfoldable pub write_answer : ErlTerm → Option (Answer (Unit {0}))
unfolding is_ok error_reason
write_answer m = or_error (if is_ok m then some tt else none) (error_reason m)

-- `binary:split(Data, [<<0>>])`: the part before the first NUL, and whether there is one.
unfoldable pub split_zero : Bytes → Bytes × Bool
split_zero [] = ([], false)
split_zero (c ∷ s) =
    let (part, found) = split_zero s in if c == 0 then ([], true) else (c ∷ part, found)

module _ (sys : System) where
  unfoldable pub size : Action ErlTerm
  unfolding wasm_send receive execution_result
  size = do wasm_send sys Request.size; receive execution_result

  unfoldable pub write : ℤ → Bytes → Action (Answer (Unit {0}))
  unfolding wasm_send receive write_answer
  write offset bytes = do wasm_send sys (Request.write offset bytes); receive write_answer

  unfoldable pub read : ℤ → ℤ → Action (Answer ErlTerm)
  unfolding wasm_send receive read_answer
  read offset size = do wasm_send sys (Request.read offset size); receive read_answer

  -- The chunk that was read: an error is no match for `{ok, Data}`, and only a binary can be split.
  unfoldable pub chunk : Answer ErlTerm → Action Bytes
  chunk (ok (binary b)) = pure b
  chunk _ = raise

  -- What is behind a chunk is read if the chunk has no NUL.
  abbrev pub join : Bytes × Bool → Action Bytes → Action Bytes
  join (part, true) rest = pure part
  join (part, false) rest = rest >>= λ more. pure (part ++ more)

  -- The fuel bounds the number of chunks.
  unfoldable pub do_read_string : ℕ → ℤ → ℤ → Action Bytes
  unfolding read chunk split_zero
  do_read_string zero offset chunk_size = λ s. unfinished
  do_read_string (suc fuel) offset chunk_size = do
    answer ← read offset chunk_size
    bytes ← chunk answer
    join (split_zero bytes) (do_read_string fuel (offset +ℤ chunk_size) chunk_size)

  -- Always `ok` where it comes to an end.
  unfoldable pub read_string : ℕ → ℤ → ℤ → Action Bytes
  unfolding do_read_string
  read_string fuel offset chunk_size = do_read_string fuel offset chunk_size
