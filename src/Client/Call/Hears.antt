-- ===== src/Client/Call/Hears.antt =====
-- src/hb_beamr.erl: the message that `start` waits for.
use hyper_beam.Common.{ℕ, ◌≡◌, refl, ◌∙◌, ap, Bytes, List, [], ◌∷◌, done, some}
use hyper_beam.Core.Message.{codes, Message}
use hyper_beam.Core.Runtime.{Memory}
use hyper_beam.Core.Process.{Driver}
use hyper_beam.Helpers.Strings.{strcmp_eq}
use hyper_beam.Beamr.Entry.{wasm_driver_entry}
use hyper_beam.Beamr.Lifecycle.{wasm_driver_start}
use hyper_beam.Beamr.Output.{dispatch}
use hyper_beam.Beamr.Output.Headers.{output-dispatch}
use hyper_beam.Wasm.Initialize.{wasm_initialize_runtime}
use hyper_beam.Messages.Terms.{ErlTerm}
use hyper_beam.Port.{new_port}
use hyper_beam.Port.Loading.{SendsInit, load_request, init_taken, init_command-eq}
use hyper_beam.Client.Session.{Request, System, Session, value}
use hyper_beam.Client.Worker.{port_command, proceed, run_job, wasm_send}
use hyper_beam.Client.Worker.Exchange.{listen-one, wasm_send-eq}
use hyper_beam.Client.Call.{spawned}

-- The driver of a new port.
abbrev pub new_driver : ℕ → ℕ → List Memory → Driver
new_driver port now memories = (new_port port now memories).driver

-- The driver when a thread takes the job of the `init`.
abbrev pub loading : System → ℕ → ℕ → List Memory → Bytes → Bytes → ℕ → Driver
loading sys port now memories binary mode size =
    record (init_taken sys.caller (load_request binary mode size) (new_driver port now memories)) {
      jobs = [];
    }

-- A client that has been sent a message.
abbrev pub heard : System → ℕ → ℕ → List Memory → Driver → ErlTerm → Session
heard sys port now memories d t = record (spawned sys port now memories) {
  port = record (new_port port now memories) { driver = d };
  taken = 1;
  inbox = t ∷ [];
}

module _ (sys : System) (port now : ℕ) (memories : List Memory) {binary mode : Bytes} {size : ℕ}
    (h : SendsInit sys.ei
      (sys.codec.term_to_binary (Request.init binary mode))
      binary
      mode
      size) where
  init_output :
      (d : Driver)
      → wasm_driver_entry.output sys.ei sys.caller
          (sys.codec.term_to_binary (Request.init binary mode))
          d
        ≡ done (init_taken sys.caller (load_request binary mode size) d)
  unfolding dispatch strcmp_eq
  init_output d =
      output-dispatch sys.ei sys.caller _ (codes "init") h.index d h.sends
      ∙ init_command-eq sys.ei sys.caller _ binary mode size d h

  -- The thread that takes the job of a new port.
  init-command :
      {d' : Driver}
      → wasm_initialize_runtime sys.loader sys.garbage
          (load_request binary mode size)
          (loading sys port now memories binary mode size)
        ≡ done d'
      → port_command sys (Request.init binary mode) (new_port port now memories)
        ≡ done (record (new_port port now memories) { driver = d' })
  unfolding port_command proceed run_job new_port wasm_driver_start
  init-command e = rw (init_output (new_driver port now memories)) (rw e refl)

  -- What the client has in its mailbox.
  pub start-hears :
      {d' : Driver} (msg : Message) {t : ErlTerm}
      → wasm_initialize_runtime sys.loader sys.garbage
          (load_request binary mode size)
          (loading sys port now memories binary mode size)
        ≡ done d'
      → d'.sent ≡ msg ∷ []
      → sys.erts.build msg [] ≡ some (t ∷ [])
      → wasm_send sys (Request.init binary mode) (spawned sys port now memories)
        ≡ value tt (heard sys port now memories d' t)
  unfolding spawned new_port
  start-hears {d'} msg {t} ends sent built =
      wasm_send-eq sys (Request.init binary mode) (spawned sys port now memories) refl
        (init-command ends)
      ∙ ap (value tt) (
          listen-one sys (record (new_port port now memories) { driver = d' })
            (spawned sys port now memories) [] msg sent refl refl built)
