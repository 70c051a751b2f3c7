-- ===== src/Client/Allocate/Laws.antt =====
-- src/hb_beamr_io.erl: texts that are put into a memory and read back, and failing allocations.
use hyper_beam.Common.{
  ℕ, ◌+◌, ◌*◌, ◌/◌, ◌^◌, ◌≤◌, ◌<◌, ◌≡◌, ◌≢◌, refl, ap, ◌∙◌, true, Bool, Bytes, [], ◌∷◌, ◌++◌, some,
  arith, length, drop, leb, le→leb, ◌==◌, if◌then◌else◌, pos, length-append, drop-take-append, ℤ,
  ◌&&◌, not,
}
use hyper_beam.Core.Message.{codes}
use hyper_beam.Core.Runtime.{Memory, Instance}
use hyper_beam.Helpers.Strings.{c_string}
use hyper_beam.Beamr.Memory.{write_message, store_bytes}
use hyper_beam.Beamr.Memory.Bounds.{
  HasMemory, splice, store_bytes-HasMemory, output_term-HasMemory, length-splice,
}
use hyper_beam.Messages.Terms.{ErlTerm, int, nil, cons}
use hyper_beam.Client.Session.{integer, System, Session, Flow, value, raised, list_elements}
use hyper_beam.Client.Session.Laws.{bind-value, bind-raised}
use hyper_beam.Client.Worker.Exchange.{Ready, took, took-Ready}
use hyper_beam.Client.Io
use hyper_beam.Client.Io.{Answer, ok, error, read_string}
use hyper_beam.Client.Io.Commands.{write-inside-eq}
use hyper_beam.Client.Io.Strings.{read_string_lem}
use hyper_beam.Client.Io.Untouched.{Untouched}
use hyper_beam.Client.Call.{CallResult, stub, call, named, only_ok, plain_call}
use hyper_beam.Client.Call
use hyper_beam.Client.Allocate.{
  pointer, allocated, signed, malloc, with_pointer, write_at, write_string,
}

-- A text that has no NUL.
abbrev pub no_nul : Bytes → Bool
no_nul [] = true
no_nul (c ∷ s) = not (c == 0) && no_nul s

c_string-nul : (s rest : Bytes) → no_nul s ≡ true → c_string ((s ++ (0 ∷ [])) ++ rest) ≡ s
unfolding c_string
c_string-nul [] rest h = refl
c_string-nul (c ∷ s) rest h = ground (arith, h, c_string-nul s rest)

-- The text that stands at a place after it has been written there with its NUL.
text_there :
    (w : ℕ) (s bytes : Bytes)
    → no_nul s ≡ true
    → w + length (s ++ (0 ∷ [])) ≤ length bytes
    → c_string (drop w (splice w (s ++ (0 ∷ [])) bytes)) ≡ s
text_there w s bytes h inside =
    ap c_string (
      drop-take-append w bytes ((s ++ (0 ∷ [])) ++ drop (w + length (s ++ (0 ∷ []))) bytes)
        (omega arith))
    ∙ c_string-nul s _ h

-- A reading that fits, of a text that is known.
whole_text :
    (w c room : ℕ) (found text : Bytes) (size : ℕ) (s : Session) {x : Flow Bytes}
    → found ≡ text
    → size ≡ room
    → w + (length text / c * c + c) ≤ room
    → x ≡ (if leb (w + (length found / c * c + c)) size then value found s else raised s)
    → x ≡ value text s
whole_text w c room found text size s same sized fits e =
    e ∙ rw (same, sized, le→leb (w + (length text / c * c + c)) room fits) refl

module _ (sys : System) where
  -- A trap makes `malloc` raise, where the call itself returns the error.
  pub malloc_raises :
      (fuel : ℕ) (size : ℤ) (s s' : Session) (e : ErlTerm) (st : Unit {0})
      → call sys stub fuel (named (codes "malloc")) (integer size ∷ []) tt s
        ≡ value (Call.error e st) s'
      → malloc sys fuel size s ≡ raised s'
  unfolding malloc plain_call only_ok
  malloc_raises fuel size s s' e st h =
      bind-raised (plain_call sys fuel (named (codes "malloc")) (integer size ∷ []))
        (λ r. allocated (list_elements r)) s
        (bind-value (call sys stub fuel (named (codes "malloc")) (integer size ∷ []) tt)
          (only_ok sys) s h refl)

  -- The pointer that `malloc` gives.
  malloc_gives :
      (fuel : ℕ) (size : ℤ) (w : ℕ) (s s' : Session)
      → w ≢ 0
      → plain_call sys fuel (named (codes "malloc")) (integer size ∷ []) s
        ≡ value (cons (int w) nil) s'
      → malloc sys fuel size s ≡ value (ok (int w)) s'
  unfolding malloc allocated pointer list_elements
  malloc_gives fuel size w s s' nz h =
      bind-value (plain_call sys fuel (named (codes "malloc")) (integer size ∷ []))
        (λ r. allocated (list_elements r)) s h (ground arith)

  -- A text is put where `malloc` says.
  string_written :
      (fuel w : ℕ) (text : Bytes) (s s₁ : Session) {exports : Instance} {a : ℕ} {m : Memory}
      → plain_call sys fuel (named (codes "malloc")) (integer (pos (length text + 1)) ∷ []) s
        ≡ value (cons (int w) nil) s₁
      → w ≢ 0
      → Ready s₁
      → HasMemory s₁.port.driver exports a m
      → m.pages < 65536
      → w + (length text + 1) ≤ length m.bytes
      → write_string sys fuel text s
        ≡ value (ok (int w)) (
            took write_message
              (store_bytes (some a) m (splice w (text ++ (0 ∷ [])) m.bytes) s₁.port.driver)
              s₁)
  unfolding write_string write_at with_pointer signed
  string_written fuel w text s s₁ {exports} {a} {m} allocates nz ready has small inside =
      let long : w < 2 ^ 63 = ground (arith, has.sized) in
      let is_pos : signed w ≡ pos w = ground arith in
      let fits : w + length (text ++ (0 ∷ [])) ≤ length m.bytes =
        omega (arith, length-append {0} text (0 ∷ [])) in
      bind-value (malloc sys fuel (pos (length text + 1))) (write_at sys (text ++ (0 ∷ []))) s
        (malloc_gives fuel (pos (length text + 1)) w s s₁ nz allocates)
        (rw is_pos (
          bind-value (Io.write sys (pos w) (text ++ (0 ∷ []))) (with_pointer sys (int w)) s₁
            (write-inside-eq sys ready has small w (text ++ (0 ∷ [])) fits) refl))

  -- `write_string` and then `read_string`. If the call of `malloc` for the text and its NUL returns a
  -- pointer that is not 0, and leaves a port that can be used, with a memory of less than 65536 pages
  -- in which as many bytes lie at the pointer, then `write_string` returns this pointer; and
  -- `read_string` at the pointer, in chunks of a positive size less than 2^62 that stay inside the
  -- memory, with fuel for them, returns exactly the text, if it has no NUL.
  pub read_string-write_string :
      (fuel chunks w c : ℕ) (text : Bytes) (s s₁ : Session) (exports : Instance) (a : ℕ)
      (m : Memory)
      → plain_call sys fuel (named (codes "malloc")) (integer (pos (length text + 1)) ∷ []) s
        ≡ value (cons (int w) nil) s₁
      → w ≢ 0
      → Ready s₁
      → HasMemory s₁.port.driver exports a m
      → m.pages < 65536
      → w + (length text + 1) ≤ length m.bytes
      → no_nul text ≡ true
      → 0 < c
      → c < 2 ^ 62
      → length text / c < chunks
      → w + (length text / c * c + c) ≤ length m.bytes
      → (s₂ s₃ : Session) × (write_string sys fuel text s ≡ value (ok (int w)) s₂)
        × (read_string sys chunks (pos w) (pos c) s₂ ≡ value text s₃)
        × Untouched s₂ s₃
  unfolding store_bytes
  read_string-write_string fuel chunks w c text s s₁ exports a m allocates nz ready has small inside
        clean pos_c bound enough fits =
      let src = text ++ (0 ∷ []) in
      let bytes = splice w src m.bytes in
      let room : w + length src ≤ length m.bytes = omega (arith, length-append {0} text (0 ∷ [])) in
      let d = store_bytes (some a) m bytes s₁.port.driver in
      let s₂ : Session = took write_message d s₁ in
      let same = length-splice w src m.bytes room in
      let has₂ = output_term-HasMemory write_message (store_bytes-HasMemory has bytes same) in
      let found : c_string (drop w bytes) ≡ text = text_there w text m.bytes clean room in
      let (s₃, u, e) =
        read_string_lem sys exports a (record m { bytes = bytes }) small chunks w c s₂
          (took-Ready write_message d ready refl refl) has₂ pos_c bound (rw found (omega arith))
          (rw found enough) in
      (
        s₂,
        s₃,
        string_written fuel w text s s₁ allocates nz ready has small inside,
        whole_text w c (length m.bytes) _ text (length bytes) s₃ found same fits e,
        u,
      )
