-- ===== src/Client/Io/Strings.antt =====
-- src/hb_beamr_io.erl: `read_string`, which reads a text chunk by chunk up to its NUL.
use hyper_beam.Common.{
  ℕ, zero, suc, ◌+◌, ◌*◌, ◌^◌, ◌/◌, ◌≤◌, ◌<◌, ◌≡◌, refl, ◌∙◌, subst, Bool, true, false, Bytes, [],
  ◌++◌, Bool-cases, inl, inr, leb, if◌then◌else◌, arith, length, take, drop, pos, ◌+ℤ◌, length-drop,
}
use hyper_beam.Core.Runtime.{Memory, Instance}
use hyper_beam.Core.Message.{codes}
use hyper_beam.Helpers.Strings.{c_string}
use hyper_beam.Beamr.Memory.Bounds.{HasMemory}
use hyper_beam.Client.Session.{System, Session, value, raised, unfinished, Action, ◌>>=◌, pure}
use hyper_beam.Client.Session.Laws.{bind-value, bind-raised, bind-unfinished}
use hyper_beam.Logging.{error_message}
use hyper_beam.Beamr.Memory.{read_message}
use hyper_beam.Messages.Terms.{ErlTerm, binary}
use hyper_beam.Client.Worker.Exchange.{Ready, took}
use hyper_beam.Client.Io
use hyper_beam.Client.Io.{Answer, ok, split_zero, do_read_string, read_string, chunk, join}
use hyper_beam.Client.Io.Commands.{read-inside-eq, read-outside-eq}
use hyper_beam.Client.Io.Untouched.{Untouched, took-Untouched, Untouched-trans, Untouched-HasMemory}
use hyper_beam.Client.Io.Chunks.{split_zero-last, split_zero-more, c_string-drop, drop-drop}

-- What becomes of the reading of a text: it comes to its end, or it raises.
abbrev Reads : System → Session → ℕ → ℕ → ℕ → Bytes → Bool → Type 0
Reads sys s fuel o c text fits =
    (s' : Session) × Untouched s s'
    × (do_read_string sys fuel (pos o) (pos c) s ≡ (if fits then value text s' else raised s'))

+ℤ-pos : (o c : ℕ) → pos o +ℤ pos c ≡ pos (o + c)
+ℤ-pos o c = ground arith

-- The text of the first chunk in front of what is read behind it.
append_more :
    (fits : Bool) (rest : Action Bytes) (s s' : Session) (b found more : Bytes)
    → found ≡ b ++ more
    → rest s ≡ (if fits then value more s' else raised s')
    → (rest >>= λ m. pure (b ++ m)) s ≡ (if fits then value found s' else raised s')
append_more true rest s s' b found more whole e =
    bind-value rest (λ m. pure (b ++ m)) s e (rw whole)
append_more false rest s s' b found more whole e = bind-raised rest (λ m. pure (b ++ m)) s e

module _ (sys : System) (exports : Instance) (a : ℕ) (m : Memory) (small : m.pages < 65536) where
  -- What follows the reading of a chunk.
  abbrev go_on : ℕ → ℕ → ℕ → Answer ErlTerm → Action Bytes
  go_on fuel o c answer = chunk sys answer >>= λ bytes.
      join sys (split_zero bytes) (do_read_string sys fuel (pos o +ℤ pos c) (pos c))

  module _ (s : Session) (fuel o c : ℕ) (ready : Ready s)
      (has : HasMemory s.port.driver exports a m) where
    last_chunk :
        o + c ≤ length m.bytes
        → length (c_string (drop o m.bytes)) < c
        → o + length (c_string (drop o m.bytes)) < length m.bytes
        → Reads sys s (suc fuel) o c (c_string (drop o m.bytes)) true
    unfolding do_read_string chunk
    last_chunk inside short ends =
        let msg = read_message (take c (drop o m.bytes)) c in
        let s₁ : Session = took msg s.port.driver s in
        let found =
          split_zero-last c (drop o m.bytes) short (omega (arith, length-drop {0} o m.bytes)) in
        let goes : go_on fuel o c (ok (binary (take c (drop o m.bytes)))) s₁
            ≡ value (c_string (drop o m.bytes)) s₁ =
          rw found refl in
        (
          s₁,
          took-Untouched msg ready,
          bind-value (Io.read sys (pos o) (pos c)) (go_on fuel o c) s
              (read-inside-eq sys ready has small o c inside) goes,
        )

    outside_chunk :
        (found : Bytes)
        → length m.bytes < o + c
        → o + c < 2 ^ 63
        → Reads sys s (suc fuel) o c found false
    unfolding do_read_string chunk
    outside_chunk found outside bound =
        let msg = error_message (codes "Read request out of bounds") in
        (
          took msg s.port.driver s,
          took-Untouched msg ready,
          bind-value (Io.read sys (pos o) (pos c)) (go_on fuel o c) s
              (read-outside-eq sys ready has small o c outside bound) refl,
        )

    -- A chunk without a NUL is read, and the text goes on behind it.
    more_chunks :
        (fits : Bool)
        → o + c ≤ length m.bytes
        → c ≤ length (c_string (drop o m.bytes))
        → ((s₁ : Session)
            → Untouched s s₁
            → Reads sys s₁ fuel (o + c) c (c_string (drop c (drop o m.bytes))) fits)
        → Reads sys s (suc fuel) o c (c_string (drop o m.bytes)) fits
    unfolding do_read_string chunk
    more_chunks fits inside long next =
        let bytes = take c (drop o m.bytes) in
        let msg = read_message bytes c in
        let s₁ : Session = took msg s.port.driver s in
        let (none_here, whole) = split_zero-more c (drop o m.bytes) long in
        let u = took-Untouched msg ready in
        let (s', u', e) = next s₁ u in
        let rest = do_read_string sys fuel (pos o +ℤ pos c) (pos c) in
        let joined : go_on fuel o c (ok (binary bytes)) s₁
            ≡ (rest >>= λ more. pure (bytes ++ more)) s₁ =
          rw none_here refl in
        (
          s',
          Untouched-trans u u',
          bind-value (Io.read sys (pos o) (pos c)) (go_on fuel o c) s
              (read-inside-eq sys ready has small o c inside)
              (joined ∙ append_more fits rest s₁ s' bytes _ _ whole (rw (+ℤ-pos o c) e)),
        )

  -- The text in `k` whole chunks and a last one.
  text_read :
      (k fuel o c : ℕ) (s : Session)
      → Ready s
      → HasMemory s.port.driver exports a m
      → k < fuel
      → k * c ≤ length (c_string (drop o m.bytes))
      → length (c_string (drop o m.bytes)) < k * c + c
      → o + length (c_string (drop o m.bytes)) < length m.bytes
      → c < 2 ^ 62
      → Reads sys s fuel o c (c_string (drop o m.bytes)) (leb (o + (k * c + c)) (length m.bytes))
  text_read k zero o c s ready has f l h ends b = absurd (omega arith)
  text_read zero (suc fuel) o c s ready has f l h ends b =
      elim (Bool-cases (leb (o + (0 * c + c)) (length m.bytes))) [
        | inl fits ↦ rw fits (last_chunk s fuel o c ready has (ground arith) (omega arith) ends)
        | inr past ↦ rw past (
            outside_chunk s fuel o c ready has (c_string (drop o m.bytes)) (ground arith)
              (ground (arith, has.sized)))
      ]
  text_read (suc k) (suc fuel) o c s ready has f l h ends b =
      let text = c_string (drop o m.bytes) in
      let more : suc k * c ≡ c + k * c = grind arith in
      let shift : o + c + (k * c + c) ≡ o + (suc k * c + c) = omega arith in
      let long : c ≤ length text = omega arith in
      let split = c_string-drop c (drop o m.bytes) long in
      let behind = drop-drop o c m.bytes in
      subst (λ e. Reads sys s (suc fuel) o c text (leb e (length m.bytes))) shift
        (more_chunks s fuel o c ready has (leb (o + c + (k * c + c)) (length m.bytes)) (omega arith)
          long
          λ s₁ u. rw behind (
            text_read k fuel (o + c) c s₁ u.ready (Untouched-HasMemory u has) (omega arith)
              (rw (← behind) (omega arith)) (rw (← behind) (omega arith))
              (rw (← behind) (omega arith)) b))

  -- `read_string` of a text that ends with a NUL inside a memory of less than 65536 pages, in chunks
  -- of a positive size less than 2^62, with fuel for as many chunks as the text takes: if the last
  -- chunk lies inside the memory as well, it returns the bytes from the offset up to the NUL; if that
  -- chunk goes past the end, it raises, although the text does not. Either way the port has the same
  -- process structure, memories, jobs and thread as before and can be used again.
  pub read_string_lem :
      (fuel o c : ℕ) (s : Session)
      → Ready s
      → HasMemory s.port.driver exports a m
      → 0 < c
      → c < 2 ^ 62
      → o + length (c_string (drop o m.bytes)) < length m.bytes
      → length (c_string (drop o m.bytes)) / c < fuel
      → (s' : Session) × Untouched s s'
        × (read_string sys fuel (pos o) (pos c) s ≡ (
            if leb (o + (length (c_string (drop o m.bytes)) / c * c + c)) (length m.bytes)
            then value (c_string (drop o m.bytes)) s'
            else raised s'))
  unfolding read_string
  read_string_lem fuel o c s ready has pos_c b ends f =
      let len = length (c_string (drop o m.bytes)) in
      text_read (len / c) fuel o c s ready has f (grind arith) (grind arith) ends b

  -- With chunks of size 0, `read_string` at an offset inside the memory goes on for ever: no fuel is
  -- enough.
  pub read_string_hangs :
      (fuel o : ℕ) (s : Session)
      → Ready s
      → HasMemory s.port.driver exports a m
      → o ≤ length m.bytes
      → read_string sys fuel (pos o) (pos 0) s ≡ unfinished
  unfolding read_string do_read_string chunk split_zero
  read_string_hangs zero o s ready has h = refl
  read_string_hangs (suc fuel) o s ready has h =
      let msg = read_message [] 0 in
      let s₁ : Session = took msg s.port.driver s in
      let u = took-Untouched msg ready in
      let again = read_string_hangs fuel o s₁ u.ready (Untouched-HasMemory u has) h in
      let same : pos o +ℤ pos 0 ≡ pos o = ground arith in
      bind-value (Io.read sys (pos o) (pos 0)) (go_on fuel o 0) s
        (read-inside-eq sys ready has small o 0 (omega arith))
        (bind-unfinished (do_read_string sys fuel (pos o +ℤ pos 0) (pos 0))
          (λ more. pure ([] ++ more)) s₁ (rw same again))
