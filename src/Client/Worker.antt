-- ===== src/Client/Worker.antt =====
-- src/hb_beamr.erl: `worker`, `wasm_send` and `stop`. A command that a client sends is passed on to
-- the port, the driver's thread goes on until it waits or is through, and the worker process passes
-- the port's messages on to the client.
pub mod Exchange
use hyper_beam.Common.{
  ◌≡◌, arith, Bool, true, false, Bytes, List, [], ◌∷◌, ◌++◌, Option, none, some, Outcome, done,
  fault, fetch, ◌>>=◌, if◌then◌else◌, length, drop,
}
use hyper_beam.Core.Values.{WasmVal}
use hyper_beam.Core.Message.{Message}
use hyper_beam.Core.Process.{
  ImportResponse, Proc, ImportHook, Job, initialize_runtime, execute_function, Driver,
}
use hyper_beam.Beamr.Entry.{wasm_driver_entry}
use hyper_beam.Wasm.Import.{Reply}
use hyper_beam.Wasm.Initialize.{wasm_initialize_runtime}
use hyper_beam.Wasm.Execute.{Run, Worker, idle, waiting, wasm_execute_function, resume}
use hyper_beam.Messages.Terms.{ErlTerm}
use hyper_beam.Port.{serving, stopping, Port}
use hyper_beam.Client.Session.{Request, System, Session, Flow, value, undefined, Action}

module _ (sys : System) where
  -- The thread takes the oldest job.
  unfoldable pub run_job : Port → List Job → Outcome Port
  run_job p [] = done p
  run_job p (initialize_runtime request ∷ rest) =
      wasm_initialize_runtime sys.loader sys.garbage request (record p.driver { jobs = rest })
      >>= λ d. done (record p { driver = d })
  run_job p (execute_function ∷ rest) =
      wasm_execute_function sys.narrow sys.fill sys.api sys.leftover sys.run
        (record p.driver { jobs = rest })
      >>= λ (d, w). done (record p { driver = d; worker = w })

  -- A thread in `drv_wait` goes on once its response is ready.
  unfoldable pub wake_thread :
      Port → ImportHook → List WasmVal → (Reply → Run) → Option ImportResponse → Outcome Port
  wake_thread p hook results k none = done p
  wake_thread p hook results k (some r) =
      if r.ready
      then (resume sys.narrow sys.api sys.leftover hook results k p.driver >>= λ (d, w).
          done (record p { driver = d; worker = w }))
      else done p

  unfoldable pub proceed : Port → Worker → Outcome Port
  unfolding run_job wake_thread
  proceed p idle = if p.driver.proc.locked then done p else run_job p p.driver.jobs
  proceed p (waiting hook results k) =
      fetch p.driver.proc.current_import >>= wake_thread p hook results k

  -- What the port makes of a command before it waits for the next.
  unfoldable pub port_command : Request → Port → Outcome Port
  unfolding proceed
  port_command request p =
      wasm_driver_entry.output sys.ei sys.caller (sys.codec.term_to_binary request) p.driver
      >>= λ d. proceed (record p { driver = d }) p.worker

  -- The term of a message; a message that is malformed is not sent.
  unfoldable pub term_of_message : Message → List ErlTerm
  term_of_message m = elim (sys.erts.build m []) [ some (t ∷ []) ↦ t ∷ [] | _ ↦ [] ]

  unfoldable pub passed_on : List Message → List ErlTerm
  unfolding term_of_message
  passed_on [] = []
  passed_on (m ∷ ms) = term_of_message m ++ passed_on ms

  -- The worker passes the port's new messages on to the client.
  abbrev pub listen : Port → Session → Session
  listen p s = record s {
    port = p;
    taken = length p.driver.sent;
    inbox = s.inbox ++ passed_on (drop s.taken p.driver.sent);
  }

  unfoldable pub delivered : Session → Outcome Port → Flow (Unit {0})
  unfolding passed_on
  delivered s fault = undefined
  delivered s (done p) = value tt (listen p s)

  -- A worker process that is gone gets the message and does nothing.
  unfoldable pub wasm_send : Request → Action (Unit {0})
  unfolding port_command delivered
  wasm_send request s = if s.alive then delivered s (port_command request s.port) else value tt s

  unfoldable pub closed : Session → Outcome Proc → Flow (Unit {0})
  closed s fault = undefined
  closed s (done p) = value tt (record s {
    alive = false;
    port = record s.port { driver = record s.port.driver { proc = p }; phase = stopping };
  })

  -- The worker closes the port and is gone: what the port sends from then on reaches no client.
  unfoldable pub stop : Action (Unit {0})
  unfolding closed
  stop s = if s.alive then closed s (wasm_driver_entry.stop s.port.driver.proc) else value tt s

  -- A stop whose callback is defined.
  pub stop-eq :
      (s : Session) {p : Proc}
      → s.alive ≡ true
      → wasm_driver_entry.stop s.port.driver.proc ≡ done p
      → stop s
        ≡ value tt (record s {
          alive = false;
          port = record s.port { driver = record s.port.driver { proc = p }; phase = stopping };
        })
  unfolding stop
  stop-eq s lives e = ground (arith, lives, e)
