-- ===== src/Client/Session.antt =====
-- src/hb_beamr.erl: `wasm_send`, `stop` and `worker`, the process between a client and its port, and
-- what a client does: it sends, receives, raises, or waits for ever. One client at a time uses a
-- port, as the comment on `worker` asks for.
pub mod Laws
use mathlib.Core.Option
use hyper_beam.Common.{
  ℕ, ◌*◌, ◌^◌, ◌-◌, ◌≡◌, ◌≢◌, Bool, true, false, ◌&&◌, Bytes, List, [], ◌∷◌, Option, none, some,
  ◌==◌, ltb, if◌then◌else◌, length, ℤ, pos, negsuc, ltb_ℤ, arith,
}
use hyper_beam.Core.Values.{WasmVal, EiTerm, is_finite}
use hyper_beam.Core.Message.{codes}
use hyper_beam.Core.Runtime.{Func}
use hyper_beam.Helpers.Terms.{Ei}
use hyper_beam.Helpers.Terms.Encodings.{EncodesList}
use hyper_beam.Beamr.Output.Headers.{Sends}
use hyper_beam.Wasm.Indirect.{CallApi}
use hyper_beam.Wasm.Initialize.{Loader}
use hyper_beam.Wasm.Execute.{Run}
use hyper_beam.Messages.Terms.{ErlTerm, atom, tuple, nil, cons, TermBuilder}
use hyper_beam.Port.{Port}

-- An element of an argument list: integers of any size, floats by their 64 bits, and what is neither.
pub data Value : Type 0 where
  integer : ℤ → Value
  double : ℕ → Value
  other : ErlTerm → Value

-- The terms that are sent as commands.
pub data Request : Type 0 where
  init : Bytes → Bytes → Request
  call : Bytes → List Value → Request
  indirect_call : ℤ → List Value → Request
  import_response : List Value → Request
  write : ℤ → Bytes → Request
  read : ℤ → ℤ → Request
  size : Request

-- The atom at the head of the tuple.
abbrev pub command : Request → Bytes
command (init _ _) = codes "init"
command (call _ _) = codes "call"
command (indirect_call _ _) = codes "indirect_call"
command (import_response _) = codes "import_response"
command (write _ _) = codes "write"
command (read _ _) = codes "read"
command size = codes "size"

-- What `ei_decode_long` makes of an integer: it fails outside of a `long`.
abbrev pub long_of : ℤ → Option ℤ
long_of n =
    if ltb_ℤ (pos (2 ^ 63 - 1)) n
    then none
    else if ltb_ℤ n (negsuc (2 ^ 63 - 1))
    then none
    else some n

-- The elements that `is_valid_arg_list` accepts: integers and floats.
unfoldable pub is_valid_arg_list : List Value → Bool
is_valid_arg_list [] = true
is_valid_arg_list (integer _ ∷ vs) = is_valid_arg_list vs
is_valid_arg_list (double _ ∷ vs) = is_valid_arg_list vs
is_valid_arg_list (other _ ∷ vs) = false

-- The integers that a C `int` holds.
abbrev pub is_int : ℤ → Bool
is_int (pos n) = ltb n (2 ^ 31)
is_int (negsuc n) = ltb n (2 ^ 31)

-- The elements that `ei_decode_ei_term` can put into an `ei_term`: integers of 32 bits, and floats,
-- which in Erlang are finite. For what does not fit it may return 0 or -1 and assign nothing.
unfoldable pub are_decodable : List Value → Bool
unfolding is_finite
are_decodable [] = true
are_decodable (integer n ∷ vs) = is_int n && are_decodable vs
are_decodable (double bits ∷ vs) = is_finite bits && are_decodable vs
are_decodable (other _ ∷ vs) = false

abbrev pub are_bytes : Bytes → Bool
are_bytes [] = true
are_bytes (c ∷ s) = ltb c 256 && are_bytes s

-- `term_to_binary`, with what the decoders of `ei` find in its output: the header, the integers as
-- far as they are `long`s, binaries in whole bytes, texts, and lists of integers of 32 bits and of floats
-- in one of their encodings. `terms` is what `ei` makes of such a list.
pub record Codec (ei : Ei) : Type 0 where
  pub term_to_binary : Request → Bytes
  pub index : Request → ℕ
  pub sends : (r : Request) → Sends ei (term_to_binary r) (command r) (index r)
  pub behind : Request → ℕ
  pub terms : List Value → List EiTerm
  pub length-terms : (vs : List Value) → length (terms vs) ≡ length vs
  pub end : Request → ℕ
  pub pointer_written :
      (p : ℤ) (src : Bytes)
      → ei.decode_long
          (term_to_binary (write p src))
          (ei.decode_tuple_header (term_to_binary (write p src)) (index (write p src))).1
        ≡ (long_of p, behind (write p src))
  pub bytes_written :
      (p : ℤ) (src : Bytes)
      → long_of p ≡ some p
      → (ei.decode_bitstring (term_to_binary (write p src)) (behind (write p src))).0
        ≡ some (src, 8 * length src)
  pub pointer_read :
      (p n : ℤ)
      → ei.decode_long
          (term_to_binary (read p n))
          (ei.decode_tuple_header (term_to_binary (read p n)) (index (read p n))).1
        ≡ (long_of p, behind (read p n))
  pub size_read :
      (p n : ℤ)
      → long_of p ≡ some p
      → (ei.decode_long (term_to_binary (read p n)) (behind (read p n))).0 ≡ long_of n
  pub name_called :
      (name : Bytes) (vs : List Value)
      → are_bytes name ≡ true
      → ei.decode_string (term_to_binary (call name vs)) (index (call name vs))
        ≡ (some name, behind (call name vs))
  pub args_called :
      (name : Bytes) (vs : List Value)
      → are_bytes name ≡ true
      → vs ≢ []
      → are_decodable vs ≡ true
      → EncodesList ei
          (term_to_binary (call name vs))
          (behind (call name vs))
          (terms vs)
          (end (call name vs))
  pub terms_answered :
      (vs : List Value)
      → vs ≢ []
      → are_decodable vs ≡ true
      → EncodesList ei
          (term_to_binary (import_response vs))
          (index (import_response vs))
          (terms vs)
          (end (import_response vs))

-- What stands around the client: the libraries of the Erlang runtime, and what the WebAssembly
-- runtime and chance contribute to the driver's jobs. `caller` is the worker process.
pub record System : Type 0 where
  pub ei : Ei
  pub codec : Codec ei
  pub erts : TermBuilder
  pub caller : ℕ
  pub narrow : ℕ → ℕ
  pub fill : ℕ → ℕ
  pub api : CallApi
  pub leftover : ℤ
  pub run : Func → List WasmVal → List WasmVal → Run
  pub loader : Loader
  pub garbage : ℕ → Bytes

-- A client and its port: whether the worker process lives, how many of the port's messages it has
-- passed on, and the client's mailbox.
pub record Session : Type 0 where
  pub port : Port
  pub alive : Bool
  pub taken : ℕ
  pub inbox : List ErlTerm

-- What becomes of a client's code: a value, an exception, a `receive` that nothing will end,
-- undefined behaviour of the driver, or a recursion that is not through with its fuel.
pub data Flow (A : Type 0) : Type 0 where
  value : A → Session → Flow A
  raised : Session → Flow A
  blocked : Flow A
  undefined : Flow A
  unfinished : Flow A

abbrev pub Action : Type 0 → Type 0
Action A = Session → Flow A

-- What is behind goes on from a value only.
abbrev pub chain : {A B : Type 0} → (A → Action B) → Flow A → Flow B
chain f (value a s) = f a s
chain f (raised s) = raised s
chain f blocked = blocked
chain f undefined = undefined
chain f unfinished = unfinished

infixl 5 ◌>>=◌ ◌>>◌
abbrev pub ◌>>=◌ : {A B : Type 0} → Action A → (A → Action B) → Action B
◌>>=◌ m f s = chain f (m s)

abbrev pub ◌>>◌ : {A B : Type 0} → Action A → Action B → Action B
m >> k = m >>= λ _. k

abbrev pub pure : {A : Type 0} → A → Action A
pure a s = value a s

abbrev pub raise : {A : Type 0} → Action A
raise s = raised s

unfoldable pub bytes_eq : Bytes → Bytes → Bool
bytes_eq [] [] = true
bytes_eq [] (y ∷ ys) = false
bytes_eq (x ∷ xs) [] = false
bytes_eq (x ∷ xs) (y ∷ ys) = let rest = bytes_eq xs ys in if x == y then rest else false

unfoldable pub list_elements : ErlTerm → Option (List ErlTerm)
list_elements nil = some []
list_elements (cons x r) = Option.map (λ (xs : List ErlTerm). x ∷ xs) (list_elements r)
list_elements _ = none

-- The elements of a tuple behind the atom at its head.
unfoldable pub tagged : Bytes → ErlTerm → Option (List ErlTerm)
unfolding bytes_eq list_elements
tagged tag (tuple (cons (atom a) r)) = if bytes_eq tag a then list_elements r else none
tagged tag _ = none

-- A selective receive: the first message that fits is taken out of the mailbox.
unfoldable pub first_match :
    {A : Type 0} → (ErlTerm → Option A) → List ErlTerm → Option (A × List ErlTerm)
first_match fits [] = none
first_match fits (m ∷ ms) = elim (fits m) [
  | some a ↦ some (a, ms)
  | none ↦ Option.map (λ (a, rest). (a, m ∷ rest)) (first_match fits ms)
]

unfoldable pub picked : {A : Type 0} → Session → Option (A × List ErlTerm) → Flow A
picked s none = blocked
picked s (some (a, rest)) = value a (record s { inbox = rest })

unfoldable pub receive : {A : Type 0} → (ErlTerm → Option A) → Action A
unfolding first_match picked
receive fits s = picked s (first_match fits s.inbox)
