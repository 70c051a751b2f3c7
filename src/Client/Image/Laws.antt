-- ===== src/Client/Image/Laws.antt =====
-- src/hb_beamr.erl: what `serialize` and `deserialize` do to a port.
use hyper_beam.Common.{
  ℕ, zero, suc, ◌+◌, ◌^◌, ◌≤◌, ◌<◌, ◌≡◌, refl, sym, Bytes, [], ◌∷◌, some, arith, length, take, drop,
  pos, take-length,
}
use mathlib.Core.List.{append-nil}
use hyper_beam.Core.Message.{codes}
use hyper_beam.Core.Runtime.{Memory, Instance}
use hyper_beam.Logging.{error_message}
use hyper_beam.Beamr.Memory.{store_bytes, write_message, read_message, size_message}
use hyper_beam.Beamr.Memory.Bounds.{HasMemory, splice, store_bytes-HasMemory, output_term-HasMemory}
use hyper_beam.Messages.Terms.{int}
use hyper_beam.Client.Session.{System, Session, value, pure}
use hyper_beam.Client.Session.Laws.{bind-value}
use hyper_beam.Client.Worker.Exchange.{Ready, took}
use hyper_beam.Client.Allocate.{signed}
use hyper_beam.Client.Io
use hyper_beam.Client.Io.{ok, error}
use hyper_beam.Client.Io.Commands.{size-eq, read-inside-eq, write-inside-eq, write-outside-eq}
use hyper_beam.Client.Io.Untouched.{Untouched, took-Untouched, Untouched-trans, Untouched-HasMemory}
use hyper_beam.Client.Image.{image, read_all, serialize, deserialize}

module _ (sys : System) {s : Session} {exports : Instance} {a : ℕ} {m : Memory} (ready : Ready s)
    (has : HasMemory s.port.driver exports a m) (small : m.pages < 65536) where
  -- `serialize` gives the bytes of the whole memory and leaves the port as it was.
  pub serialize_lem : (s' : Session) × Untouched s s' × (serialize sys s ≡ value m.bytes s')
  unfolding serialize read_all image signed
  serialize_lem =
      let len = length m.bytes in
      let s₁ : Session = took (size_message len) s.port.driver s in
      let u₁ = took-Untouched (size_message len) ready in
      let msg = read_message (take len m.bytes) len in
      let s₂ : Session = took msg s₁.port.driver s₁ in
      let is_long : signed len ≡ pos len = ground (arith, has.sized) in
      let reads : read_all sys (int len) s₁ ≡ value m.bytes s₂ = rw is_long (
        bind-value (Io.read sys (pos 0) (pos len)) (image sys) s₁
          (read-inside-eq sys u₁.ready (Untouched-HasMemory u₁ has) small 0 len (omega arith))
          (rw (take-length m.bytes) refl)) in
      (
        s₂,
        Untouched-trans u₁ (took-Untouched msg u₁.ready),
        bind-value (Io.size sys) (read_all sys) s (size-eq sys ready has small) reads,
      )

  -- What `deserialize` leaves: an image that fits is at the start of the memory, one that does not
  -- changes nothing.
  pub deserialize-inside :
      (bytes : Bytes)
      → length bytes ≤ length m.bytes
      → deserialize sys bytes s
        ≡ value tt
            (took write_message (store_bytes (some a) m (splice 0 bytes m.bytes) s.port.driver) s)
  unfolding deserialize
  deserialize-inside bytes h =
      bind-value (Io.write sys (pos 0) bytes) (λ _. pure tt) s
        (write-inside-eq sys ready has small 0 bytes (omega arith)) refl

  deserialize-outside :
      (bytes : Bytes)
      → length m.bytes < length bytes
      → length bytes < 2 ^ 63
      → deserialize sys bytes s
        ≡ value tt (took (error_message (codes "Write request out of bounds")) s.port.driver s)
  unfolding deserialize
  deserialize-outside bytes h b =
      bind-value (Io.write sys (pos 0) bytes) (λ _. pure tt) s
        (write-outside-eq sys ready has small 0 bytes (omega arith) (omega arith)) refl

  -- `deserialize` of an image that is larger than the memory (of less than 65536 pages) says `ok` as
  -- it does on success, and has restored nothing: the port has the memories and the process structure
  -- that it had.
  pub deserialize_ignores :
      (bytes : Bytes)
      → length m.bytes < length bytes
      → length bytes < 2 ^ 63
      → (s' : Session) × Untouched s s' × (deserialize sys bytes s ≡ value tt s')
  deserialize_ignores bytes h b = (
    _,
    took-Untouched (error_message (codes "Write request out of bounds")) ready,
    deserialize-outside bytes h b,
  )

drop_all : (n : ℕ) (s : Bytes) → length s ≤ n → drop n s ≡ []
drop_all zero [] h = refl
drop_all zero (x ∷ s) h = absurd (omega arith)
drop_all (suc n) [] h = refl
drop_all (suc n) (x ∷ s) h = drop_all n s (omega arith)

splice-whole : (src bytes : Bytes) → length src ≡ length bytes → splice 0 src bytes ≡ src
splice-whole src bytes e = rw (drop_all (0 + length src) bytes (omega arith)) (append-nil src)

-- What `serialize` gives for one port restores the memory in another, or in the same one later:
-- where both have a memory of the same length, of less than 65536 pages, `deserialize` of the image
-- leaves exactly the bytes that the first port had, in the place of the second port's memory.
pub deserialize-serialize :
    (sys : System) (s t : Session) (exports exports' : Instance) (a a' : ℕ) (m m' : Memory)
    → Ready s
    → HasMemory s.port.driver exports a m
    → m.pages < 65536
    → Ready t
    → HasMemory t.port.driver exports' a' m'
    → m'.pages < 65536
    → length m'.bytes ≡ length m.bytes
    → (bytes : Bytes) × (s' t' : Session) × (serialize sys s ≡ value bytes s')
      × (deserialize sys bytes t ≡ value tt t')
      × HasMemory t'.port.driver exports' a' (record m' { bytes = m.bytes })
deserialize-serialize sys s t exports exports' a a' m m' ready has small ready' has' small' same =
    let (s', u, e) = serialize_lem sys ready has small in
    let whole = splice-whole m.bytes m'.bytes (sym same) in
    (
      m.bytes,
      s',
      _,
      e,
      deserialize-inside sys ready' has' small' m.bytes (omega arith),
      rw whole
          (output_term-HasMemory write_message (store_bytes-HasMemory has' m.bytes (sym same))),
    )
