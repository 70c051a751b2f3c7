-- ===== src/Client/Io/Offsets.antt =====
-- src/hb_beamr_io.erl: offsets that the guards of `write` and `read` let through.
use hyper_beam.Common.{ℕ, ◌^◌, ◌≤◌, ◌≡◌, refl, ◌∙◌, Bytes, none, true, fault, arith, ℤ, pos}
use hyper_beam.Core.Message.{codes}
use hyper_beam.Core.Process.{Driver}
use hyper_beam.Helpers.Strings.{strcmp_eq}
use hyper_beam.Beamr.Entry.{wasm_driver_entry}
use hyper_beam.Beamr.Memory.{write_command, read_command}
use hyper_beam.Beamr.Output.{dispatch}
use hyper_beam.Beamr.Output.Headers.{output-dispatch}
use hyper_beam.Client.Session.{Request, read, write, long_of, System, Session, undefined, receive}
use hyper_beam.Client.Session.Laws.{bind-undefined}
use hyper_beam.Client.Worker.{port_command, delivered, wasm_send}
use hyper_beam.Client.Io
use hyper_beam.Client.Io.{read_answer, write_answer}

no_long : (n : ℕ) → 2 ^ 63 ≤ n → long_of (pos n) ≡ none
no_long n h = ground arith

module _ (sys : System) where
  open sys use {ei, codec, caller}

  write_faults :
      (n : ℕ) (src : Bytes) (d : Driver)
      → 2 ^ 63 ≤ n
      → wasm_driver_entry.output ei caller (codec.term_to_binary (write (pos n) src)) d ≡ fault
  unfolding dispatch strcmp_eq write_command
  write_faults n src d h =
      output-dispatch ei caller _ (codes "write") _ d (codec.sends (write (pos n) src))
      ∙ rw (codec.pointer_written (pos n) src, no_long n h) refl

  read_faults :
      (n : ℕ) (size : ℤ) (d : Driver)
      → 2 ^ 63 ≤ n
      → wasm_driver_entry.output ei caller (codec.term_to_binary (read (pos n) size)) d ≡ fault
  unfolding dispatch strcmp_eq read_command
  read_faults n size d h =
      output-dispatch ei caller _ (codes "read") _ d (codec.sends (read (pos n) size))
      ∙ rw (codec.pointer_read (pos n) size, no_long n h) refl

  send_faults :
      (request : Request) (s : Session)
      → s.alive ≡ true
      → wasm_driver_entry.output ei caller (codec.term_to_binary request) s.port.driver ≡ fault
      → wasm_send sys request s ≡ undefined
  unfolding wasm_send port_command delivered
  send_faults request s lives e = rw lives (rw e refl)

  -- An offset of 2^63 or more, which is an integer for the guards of `write` and `read`, makes the
  -- driver use a pointer that was never assigned, whatever the rest of the arguments and the state of
  -- the port.
  pub offset_undefined :
      (n : ℕ) (src : Bytes) (size : ℤ) (s : Session)
      → 2 ^ 63 ≤ n
      → s.alive ≡ true
      → (Io.write sys (pos n) src s ≡ undefined) × (Io.read sys (pos n) size s ≡ undefined)
  unfolding Io.write Io.read
  offset_undefined n src size s h lives = (
    bind-undefined (wasm_send sys (write (pos n) src)) (λ _. receive write_answer) s
        (send_faults (write (pos n) src) s lives (write_faults n src s.port.driver h)),
    bind-undefined (wasm_send sys (read (pos n) size)) (λ _. receive read_answer) s
        (send_faults (read (pos n) size) s lives (read_faults n size s.port.driver h)),
  )
