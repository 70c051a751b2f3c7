-- ===== src/Checks/Machine.antt =====
-- A stack machine that reads messages: an instance of what is assumed of `erl_drv_output_term`.
use hyper_beam.Common.{
  ℕ, zero, suc, ◌+◌, ◌≡◌, refl, Bytes, List, [], ◌∷◌, ◌++◌, Option, none, some, length, take,
  take-length, arith,
}
use mathlib.Core.List.{append-nil}
use native.Mathlib.Nat.{zero-add}
use hyper_beam.Core.Message.{
  Message, drv_atom, drv_string, drv_nil, drv_list, drv_tuple, drv_int, drv_int64, drv_float,
  drv_buf2binary, atom_of, chars, octets, value_at, word,
}
use hyper_beam.Messages.Terms.{
  ErlTerm, atom, text, binary, int, float, nil, cons, tuple, erl_list, pushed, TermBuilder,
}

-- The topmost terms, the last of them first put in front of `acc`.
pop : ℕ → List ErlTerm → List ErlTerm → Option (List ErlTerm × List ErlTerm)
pop zero st acc = some (acc, st)
pop (suc n) [] acc = none
pop (suc n) (x ∷ st) acc = pop n st (x ∷ acc)

-- A list whose last term is the tail.
list_of : List ErlTerm → ErlTerm
list_of [] = nil
list_of (x ∷ []) = x
list_of (x ∷ y ∷ r) = cons x (list_of (y ∷ r))

unfoldable pub build : Message → List ErlTerm → Option (List ErlTerm)
unfolding pop list_of
build [] st = some st
build (drv_nil ∷ m) st = build m (nil ∷ st)
build (drv_atom ∷ atom_of a ∷ m) st = build m (atom a ∷ st)
build (drv_string ∷ chars s ∷ word n ∷ m) st = build m (text (take n s) ∷ st)
build (drv_int ∷ word w ∷ m) st = build m (int w ∷ st)
build (drv_int64 ∷ value_at w ∷ m) st = build m (int w ∷ st)
build (drv_float ∷ value_at w ∷ m) st = build m (float w ∷ st)
build (drv_buf2binary ∷ octets b ∷ word n ∷ m) st = build m (binary (take n b) ∷ st)
build (drv_list ∷ word n ∷ m) st = elim (pop n st []) [
  | none ↦ none
  | some (xs, rest) ↦ build m (list_of xs ∷ rest)
]
build (drv_tuple ∷ word n ∷ m) st = elim (pop n st []) [
  | none ↦ none
  | some (xs, rest) ↦ build m (tuple (erl_list xs) ∷ rest)
]
build _ st = none

pop-pushed :
    (xs st acc : List ErlTerm) (k : ℕ)
    → pop (length xs + k) (pushed xs st) acc ≡ pop k st (xs ++ acc)
unfolding pop
pop-pushed [] st acc k = rw zero-add
pop-pushed (x ∷ xs) st acc k =
    let e : length (x ∷ xs) + k ≡ length xs + suc k = omega arith in
    rw (e, pop-pushed xs (x ∷ st) acc (suc k))

list_of-append : (xs : List ErlTerm) → list_of (xs ++ (nil ∷ [])) ≡ erl_list xs
unfolding list_of
list_of-append [] = refl
list_of-append (x ∷ []) = refl
list_of-append (x ∷ y ∷ r) = rw (list_of-append (y ∷ r))

pub build-list :
    (xs : List ErlTerm) (n : ℕ) (m : Message) (st : List ErlTerm)
    → n ≡ length xs + 1
    → build (drv_nil ∷ drv_list ∷ word n ∷ m) (pushed xs st) ≡ build m (erl_list xs ∷ st)
unfolding build
build-list xs n m st e =
    let e' : n ≡ suc (length xs + 0) = omega arith in
    ground (arith, e', pop-pushed xs st (nil ∷ []) 0, list_of-append xs)

pub build-tuple :
    (xs : List ErlTerm) (n : ℕ) (m : Message) (st : List ErlTerm)
    → n ≡ length xs
    → build (drv_tuple ∷ word n ∷ m) (pushed xs st) ≡ build m (tuple (erl_list xs) ∷ st)
unfolding build
build-tuple xs n m st e =
    let e' : n ≡ length xs + 0 = omega arith in
    ground (arith, e', pop-pushed xs st [] 0, append-nil xs)

pub build-binary :
    (b : Bytes) (m : Message) (st : List ErlTerm)
    → build (drv_buf2binary ∷ octets b ∷ word (length b) ∷ m) st ≡ build m (binary b ∷ st)
unfolding build
build-binary b m st = rw (take-length b)

abbrev pub machine : TermBuilder
unfolding build
machine = record {
  build = build;
  build_end = λ st. refl;
  build_atom = λ a m st. refl;
  build_string = λ s n m st h. refl;
  build_int = λ w m st. refl;
  build_int64 = λ w m st. refl;
  build_float = λ w m st fin. refl;
  build_binary = build-binary;
  build_list = build-list;
  build_tuple = build-tuple;
}
