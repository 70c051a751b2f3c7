-- ===== src/Client/Io/Commands.antt =====
-- src/hb_beamr_io.erl: the memory commands as a client sends them, from the Erlang term over the
-- driver's handler to the message that the client receives.
use hyper_beam.Common.{
  ℕ, ◌+◌, ◌*◌, ◌^◌, ◌≤◌, ◌<◌, ◌≡◌, refl, ◌∙◌, ap, Bytes, [], ◌∷◌, some, arith, length, take, drop,
  pos, length-take, length-drop,
}
use hyper_beam.Core.Message.{codes}
use hyper_beam.Core.Runtime.{Memory, Instance}
use hyper_beam.Core.Process.{Driver}
use hyper_beam.Helpers.Strings.{strcmp_eq, c_string}
use hyper_beam.Logging.{send_error, error_message}
use hyper_beam.Beamr.Entry.{wasm_driver_entry}
use hyper_beam.Beamr.Memory.{
  store_bytes, write_message, write_bytes, read_message, read_bytes, read_command, size_message,
  size_command,
}
use hyper_beam.Beamr.Memory.Bounds.{HasMemory, splice, get_memory_size-eq}
use hyper_beam.Beamr.Memory.Transfer.{write_bytes-eq, read_bytes-eq}
use hyper_beam.Beamr.Output.{dispatch}
use hyper_beam.Beamr.Output.Headers.{output-dispatch}
use hyper_beam.Messages.Terms.{atom, text, binary, int, tuple, erl_list}
use hyper_beam.Messages.Denote.{error_message-denotes}
use hyper_beam.Port.Writing.{write_command-eq}
use hyper_beam.Client.Session.{
  size, read, write, long_of, System, Session, value, tagged, bytes_eq, list_elements,
}
use hyper_beam.Client.Worker.Exchange.{Ready, took, exchange}
use hyper_beam.Client.Io
use hyper_beam.Client.Io.{
  ok, error, execution_result, error_reason, is_ok, read_answer, write_answer,
}

long_of-pos : (p : ℕ) → p < 2 ^ 63 → long_of (pos p) ≡ some (pos p)
long_of-pos p h = ground arith

module _ (sys : System) where
  open sys use {ei, codec, erts, caller}

  write_taken :
      (p : ℕ) (src : Bytes) (d : Driver)
      → p < 2 ^ 63
      → wasm_driver_entry.output ei caller (codec.term_to_binary (write (pos p) src)) d
        ≡ write_bytes (pos p) src d
  unfolding dispatch strcmp_eq
  write_taken p src d h =
      output-dispatch ei caller _ (codes "write") _ d (codec.sends (write (pos p) src))
      ∙ write_command-eq ei _ p src d (record {
        index = codec.index (write (pos p) src);
        sends = codec.sends (write (pos p) src);
        behind_ptr = codec.behind (write (pos p) src);
        ptr_is =
            codec.pointer_written (pos p) src
            ∙ ap (λ o. (o, codec.behind (write (pos p) src))) (long_of-pos p h);
        bits = 8 * length src;
        bytes_are = codec.bytes_written (pos p) src (long_of-pos p h);
        whole = omega arith;
      })

  read_taken :
      (p n : ℕ) (d : Driver)
      → p < 2 ^ 63
      → n < 2 ^ 63
      → wasm_driver_entry.output ei caller (codec.term_to_binary (read (pos p) (pos n))) d
        ≡ read_bytes (pos p) (pos n) d
  unfolding dispatch strcmp_eq read_command
  read_taken p n d hp hn =
      output-dispatch ei caller _ (codes "read") _ d (codec.sends (read (pos p) (pos n)))
      ∙ rw
          (
            codec.pointer_read (pos p) (pos n),
            long_of-pos p hp,
            codec.size_read (pos p) (pos n) (long_of-pos p hp),
            long_of-pos n hn,
          )
          refl

  size_taken :
      (d : Driver)
      → wasm_driver_entry.output ei caller (codec.term_to_binary size) d ≡ size_command d
  unfolding dispatch strcmp_eq
  size_taken d = output-dispatch ei caller _ (codes "size") _ d (codec.sends size)

  read_message-denotes :
      (out : Bytes) (n : ℕ)
      → length out ≡ n
      → erts.build (read_message out n) []
        ≡ some (tuple (erl_list (atom (codes "execution_result") ∷ binary out ∷ [])) ∷ [])
  unfolding read_message
  read_message-denotes out n e = rw (← e) (
      erts.build_atom _ _ []
      ∙ erts.build_binary out _ _
      ∙ erts.build_tuple (_ ∷ _ ∷ []) 2 [] [] refl
      ∙ erts.build_end _)

  size_message-denotes :
      (n : ℕ)
      → erts.build (size_message n) []
        ≡ some (tuple (erl_list (atom (codes "execution_result") ∷ int n ∷ [])) ∷ [])
  unfolding size_message
  size_message-denotes n =
      erts.build_atom _ _ []
      ∙ erts.build_int n _ _
      ∙ erts.build_tuple (_ ∷ _ ∷ []) 2 [] [] refl
      ∙ erts.build_end _

  write_message-denotes : erts.build write_message [] ≡ some (atom (codes "ok") ∷ [])
  unfolding write_message
  write_message-denotes = erts.build_atom _ [] [] ∙ erts.build_end _

  module _ {s : Session} {exports : Instance} {a : ℕ} {m : Memory} (ready : Ready s)
      (has : HasMemory s.port.driver exports a m) (small : m.pages < 65536) where
    -- `size` gives the number of bytes of the memory.
    pub size-eq :
        Io.size sys s
        ≡ value (int (length m.bytes)) (took (size_message (length m.bytes)) s.port.driver s)
    unfolding Io.size size_command execution_result tagged bytes_eq list_elements
    size-eq =
        exchange sys execution_result size s (size_message (length m.bytes)) _ _ s.port.driver ready
          (size_taken s.port.driver ∙ rw (get_memory_size-eq has) (ground (arith, has.sized))) refl
          refl refl (size_message-denotes (length m.bytes)) refl

    pub write-inside-eq :
        (p : ℕ) (src : Bytes)
        → p + length src ≤ length m.bytes
        → Io.write sys (pos p) src s
          ≡ value
              (ok tt)
              (took write_message (store_bytes (some a) m (splice p src m.bytes) s.port.driver) s)
    unfolding Io.write write_answer is_ok bytes_eq store_bytes
    write-inside-eq p src h =
        exchange sys write_answer (write (pos p) src) s write_message (atom (codes "ok")) (ok tt)
          (store_bytes (some a) m (splice p src m.bytes) s.port.driver) ready
          (write_taken p src s.port.driver (ground (arith, has.sized))
            ∙ write_bytes-eq has small p src (ground (arith, has.sized))
            ∙ ground arith)
          refl refl refl write_message-denotes refl

    pub write-outside-eq :
        (p : ℕ) (src : Bytes)
        → length m.bytes < p + length src
        → p + length src < 2 ^ 63
        → Io.write sys (pos p) src s
          ≡ value
              (error (text (codes "Write request out of bounds")))
              (took (error_message (codes "Write request out of bounds")) s.port.driver s)
    unfolding Io.write write_answer is_ok bytes_eq error_reason tagged list_elements send_error
        c_string
    write-outside-eq p src h b =
        exchange sys write_answer (write (pos p) src) s _ _ _ s.port.driver ready
          (write_taken p src s.port.driver (ground arith)
            ∙ write_bytes-eq has small p src b
            ∙ ground arith)
          refl refl refl (error_message-denotes erts (codes "Write request out of bounds")) refl

    pub read-inside-eq :
        (p n : ℕ)
        → p + n ≤ length m.bytes
        → Io.read sys (pos p) (pos n) s
          ≡ value
              (ok (binary (take n (drop p m.bytes))))
              (took (read_message (take n (drop p m.bytes)) n) s.port.driver s)
    unfolding Io.read read_answer execution_result tagged bytes_eq list_elements
    read-inside-eq p n h =
        exchange sys read_answer (read (pos p) (pos n)) s (read_message (take n (drop p m.bytes)) n)
          _ _ s.port.driver ready
          (read_taken p n s.port.driver (ground (arith, has.sized)) (ground (arith, has.sized))
            ∙ read_bytes-eq has small p n (ground (arith, has.sized))
            ∙ ground arith)
          refl refl refl
          (read_message-denotes (take n (drop p m.bytes)) n
            (omega (arith, length-take {0} n (drop p m.bytes), length-drop {0} p m.bytes)))
          refl

    pub read-outside-eq :
        (p n : ℕ)
        → length m.bytes < p + n
        → p + n < 2 ^ 63
        → Io.read sys (pos p) (pos n) s
          ≡ value
              (error (text (codes "Read request out of bounds")))
              (took (error_message (codes "Read request out of bounds")) s.port.driver s)
    unfolding Io.read read_answer execution_result error_reason tagged bytes_eq list_elements
        send_error c_string
    read-outside-eq p n h b =
        exchange sys read_answer (read (pos p) (pos n)) s _ _ _ s.port.driver ready
          (read_taken p n s.port.driver (ground arith) (ground arith)
            ∙ read_bytes-eq has small p n b
            ∙ ground arith)
          refl refl refl (error_message-denotes erts (codes "Read request out of bounds")) refl
