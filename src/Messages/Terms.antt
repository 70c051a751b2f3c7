-- ===== src/Messages/Terms.antt =====
-- What a message for `erl_drv_output_term` denotes. The function belongs to the Erlang runtime: it
-- is a parameter here, with what its documentation says of the tags that the driver uses.
use hyper_beam.Common.{true, ℕ, ◌+◌, ◌≤◌, ◌≡◌, Bytes, List, [], ◌∷◌, Option, some, length, take}
use hyper_beam.Core.Values.{is_finite}
use hyper_beam.Core.Message.{
  Message, drv_atom, drv_string, drv_nil, drv_list, drv_tuple, drv_int, drv_int64, drv_float,
  drv_buf2binary, atom_of, chars, octets, value_at, word,
}

-- Erlang's terms, a list by its cells; `tuple` takes the list of its elements. Integers and floats
-- are 64-bit patterns.
pub data ErlTerm : Type 0 where
  atom text binary : Bytes → ErlTerm
  int float : ℕ → ErlTerm
  nil : ErlTerm
  cons : ErlTerm → ErlTerm → ErlTerm
  tuple : ErlTerm → ErlTerm

abbrev pub erl_list : List ErlTerm → ErlTerm
erl_list [] = nil
erl_list (x ∷ xs) = cons x (erl_list xs)

-- A stack after terms have been pushed, the first of them first.
abbrev pub pushed : List ErlTerm → List ErlTerm → List ErlTerm
pushed [] st = st
pushed (x ∷ xs) st = pushed xs (x ∷ st)

-- `build` reads a message from a stack of terms on and gives the stack at its end. A list takes its
-- tail and as many elements as it says, less the tail; a tuple takes as many as it says. A float is
-- finite, as all floats of Erlang are.
pub record TermBuilder : Type 0 where
  pub build : Message → List ErlTerm → Option (List ErlTerm)
  pub build_end : (st : List ErlTerm) → build [] st ≡ some st
  pub build_atom :
      (a : Bytes) (m : Message) (st : List ErlTerm)
      → build (drv_atom ∷ atom_of a ∷ m) st ≡ build m (atom a ∷ st)
  pub build_string :
      (s : Bytes) (n : ℕ) (m : Message) (st : List ErlTerm)
      → n ≤ length s
      → build (drv_string ∷ chars s ∷ word n ∷ m) st ≡ build m (text (take n s) ∷ st)
  pub build_int :
      (w : ℕ) (m : Message) (st : List ErlTerm)
      → build (drv_int ∷ word w ∷ m) st ≡ build m (int w ∷ st)
  pub build_int64 :
      (w : ℕ) (m : Message) (st : List ErlTerm)
      → build (drv_int64 ∷ value_at w ∷ m) st ≡ build m (int w ∷ st)
  pub build_float :
      (w : ℕ) (m : Message) (st : List ErlTerm)
      → is_finite w ≡ true
      → build (drv_float ∷ value_at w ∷ m) st ≡ build m (float w ∷ st)
  pub build_binary :
      (b : Bytes) (m : Message) (st : List ErlTerm)
      → build (drv_buf2binary ∷ octets b ∷ word (length b) ∷ m) st ≡ build m (binary b ∷ st)
  pub build_list :
      (xs : List ErlTerm) (n : ℕ) (m : Message) (st : List ErlTerm)
      → n ≡ length xs + 1
      → build (drv_nil ∷ drv_list ∷ word n ∷ m) (pushed xs st) ≡ build m (erl_list xs ∷ st)
  pub build_tuple :
      (xs : List ErlTerm) (n : ℕ) (m : Message) (st : List ErlTerm)
      → n ≡ length xs
      → build (drv_tuple ∷ word n ∷ m) (pushed xs st) ≡ build m (tuple (erl_list xs) ∷ st)
