-- ===== src/Client/Worker/Exchange.antt =====
-- A command that the port answers at once, with one message, and the receive that takes it.
use hyper_beam.Common.{
  ◌≡◌, refl, sym, ◌∙◌, ap, true, false, List, [], ◌∷◌, ◌++◌, Option, some, stored, done, arith,
  length, drop-append,
}
use hyper_beam.Core.Values.{WasmVal}
use hyper_beam.Core.Message.{Message}
use hyper_beam.Core.Process.{ImportResponse, ImportHook, Driver}
use hyper_beam.Logging.{output_term}
use hyper_beam.Beamr.Entry.{wasm_driver_entry}
use hyper_beam.Wasm.Import.{Reply}
use hyper_beam.Wasm.Execute.{Run, Worker, idle, waiting}
use hyper_beam.Messages.Terms.{ErlTerm}
use hyper_beam.Port.{Port}
use hyper_beam.Client.Session.{Request, System, Session, value, ◌>>◌, receive}
use hyper_beam.Client.Session.Laws.{bind-value, receive-first}
use hyper_beam.Client.Worker.{
  proceed, run_job, wake_thread, port_command, term_of_message, passed_on, listen, wasm_send,
}

-- The thread has nothing to do: no job is queued, or a host call waits for its answer.
pub data Rests (d : Driver) (w : Worker) : Type 0 where
  no_job : w ≡ idle → d.jobs ≡ [] → Rests d w
  asks :
      (hook : ImportHook) (results : List WasmVal) (k : Reply → Run) (r : ImportResponse)
      → w ≡ waiting hook results k
      → d.proc.current_import ≡ stored (some r)
      → r.ready ≡ false
      → Rests d w

-- The client can use the port: the worker lives and has passed all messages on, and no message is
-- left in the mailbox.
pub record Ready (s : Session) : Type 0 where
  pub lives : s.alive ≡ true
  pub in_step : s.taken ≡ length s.port.driver.sent
  pub no_mail : s.inbox ≡ []
  pub rests : Rests s.port.driver s.port.worker

-- The session after a message of the port has been passed on and received.
abbrev pub took : Message → Driver → Session → Session
took m d s = record s {
  port = record s.port { driver = output_term m d };
  taken = length (d.sent ++ (m ∷ []));
  inbox = [];
}

pub Rests-keeps :
    {d d' : Driver} {w : Worker} → Rests d w → d'.jobs ≡ d.jobs → d'.proc ≡ d.proc → Rests d' w
Rests-keeps (no_job w e) j p = no_job w (j ∙ e)
Rests-keeps (asks hook results k r w e ready) j p = asks hook results k r w (ground arith) ready

module _ (sys : System) where
  pub proceed-Rests : (p : Port) (w : Worker) → Rests p.driver w → proceed sys p w ≡ done p
  unfolding proceed run_job wake_thread
  proceed-Rests p w (no_job e j) = ground arith
  proceed-Rests p w (asks hook results k r e pending ready) = rw (e, pending, ready)

  pub passed_on-one :
      (m : Message) {t : ErlTerm}
      → sys.erts.build m [] ≡ some (t ∷ [])
      → passed_on sys (m ∷ []) ≡ t ∷ []
  unfolding passed_on term_of_message
  passed_on-one m e = ground (arith, e)

  -- What the worker passes on of one new message.
  pub listen-one :
      (p : Port) (s : Session) (before : List Message) (m : Message) {t : ErlTerm}
      → p.driver.sent ≡ before ++ (m ∷ [])
      → s.taken ≡ length before
      → s.inbox ≡ []
      → sys.erts.build m [] ≡ some (t ∷ [])
      → listen sys p s ≡ record s { port = p; taken = length (before ++ (m ∷ [])); inbox = t ∷ [] }
  listen-one p s before m sent in_step no_mail built =
      ground (arith, drop-append before (m ∷ []), passed_on-one m built)

  pub wasm_send-eq :
      (request : Request) (s : Session) {p : Port}
      → s.alive ≡ true
      → port_command sys request s.port ≡ done p
      → wasm_send sys request s ≡ value tt (listen sys p s)
  unfolding wasm_send
  wasm_send-eq request s lives e = ground (arith, lives, e)

  pub port_command-now :
      (request : Request) (p : Port) {d : Driver}
      → wasm_driver_entry.output sys.ei sys.caller (sys.codec.term_to_binary request) p.driver
        ≡ done d
      → Rests d p.worker
      → port_command sys request p ≡ done (record p { driver = d })
  unfolding port_command
  port_command-now request p {d} o rests =
      rw o (proceed-Rests (record p { driver = d }) p.worker rests)

  -- The message that a command is answered with is the one that the client receives.
  pub exchange :
      {A : Type 0} (fits : ErlTerm → Option A) (request : Request) (s : Session) (m : Message)
      (t : ErlTerm) (a : A) (d : Driver)
      → Ready s
      → wasm_driver_entry.output sys.ei sys.caller (sys.codec.term_to_binary request) s.port.driver
        ≡ done (output_term m d)
      → d.sent ≡ s.port.driver.sent
      → d.jobs ≡ s.port.driver.jobs
      → d.proc ≡ s.port.driver.proc
      → sys.erts.build m [] ≡ some (t ∷ [])
      → fits t ≡ some a
      → (wasm_send sys request >> receive fits) s ≡ value a (took m d s)
  exchange fits request s m t a d ready o sent jobs proc built fit =
      let p = record s.port { driver = output_term m d } in
      let s' : Session = record s {
        port = p;
        taken = length (d.sent ++ (m ∷ []));
        inbox = t ∷ [];
      } in
      bind-value (wasm_send sys request) (λ _. receive fits) s {s' = s'}
        (wasm_send-eq request s ready.lives
            (port_command-now request s.port o (Rests-keeps ready.rests jobs proc))
          ∙ ap (value tt) (
              listen-one p s d.sent m refl (ready.in_step ∙ ap length (sym sent)) ready.no_mail
                built))
        (receive-first fits s' t [] refl fit)

-- The port can be used again.
pub took-Ready :
    {s : Session} (m : Message) (d : Driver)
    → Ready s
    → d.jobs ≡ s.port.driver.jobs
    → d.proc ≡ s.port.driver.proc
    → Ready (took m d s)
took-Ready m d ready jobs proc = record {
  lives = ready.lives;
  in_step = refl;
  no_mail = refl;
  rests = Rests-keeps ready.rests jobs proc;
}
