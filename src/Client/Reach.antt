-- ===== src/Client/Reach.antt =====
-- src/hb_beamr.erl, src/hb_beamr_io.erl: whatever a client does with a port, the port takes the steps
-- of the module `Port`.
pub mod Ports
pub mod Actions
use hyper_beam.Common.{
  ℕ, suc, ◌+◌, ◌≡◌, ◌≢◌, refl, sym, ap, subst, ◌∙◌, Bool, true, false, Bytes, List, [], ◌∷◌, Option,
  none, some, stored, Outcome, done, fault, fetch, fetch-eq-done, >>=-eq-done, done-injective,
  Bool-cases, if◌then◌else◌, inl, inr, arith, ℤ,
}
use hyper_beam.Core.Values.{WasmVal}
use hyper_beam.Core.Process.{
  ImportResponse, ImportHook, Proc, Job, initialize_runtime, execute_function, Driver,
}
use hyper_beam.Beamr.Entry.{wasm_driver_entry}
use hyper_beam.Wasm.Import.{Reply}
use hyper_beam.Wasm.Initialize.{wasm_initialize_runtime}
use hyper_beam.Wasm.Execute.{Run, Worker, idle, waiting, wasm_execute_function, resume}
use hyper_beam.Port.{
  serving, stopping, freed, Port, Takes, output, initialize, execute, reply, stop, Reach, later,
}
use hyper_beam.Client.Session.{
  Value, Request, System, Session, Flow, value, raised, blocked, undefined, unfinished, Action,
  chain, ◌>>=◌, ◌>>◌, first_match, picked, receive,
}
use hyper_beam.Client.Worker
use hyper_beam.Client.Worker.{
  run_job, wake_thread, proceed, port_command, delivered, wasm_send, closed,
}
use hyper_beam.Client.Call.{caught, catch, ImportFun}
use hyper_beam.Messages.Terms.{ErlTerm}
use hyper_beam.Client.Reach.Ports.{Serving, port_command-Serving}

module _ (sys : System) where
  -- The port can be reached, and serves while the worker lives.
  pub record Sound (s : Session) : Type 0 where
    pub commands : ℕ
    pub reached : Reach sys.ei sys.narrow commands s.port
    pub serves : s.alive ≡ true → s.port.phase ≡ serving

  abbrev pub After : {A : Type 0} → Flow A → Type 0
  After (value a s) = Sound s
  After (raised s) = Sound s
  After blocked = Unit
  After undefined = Unit
  After unfinished = Unit

  -- What code leaves behind is sound if it starts from a sound state.
  abbrev pub Keeps : {A : Type 0} → Action A → Type 0
  Keeps m = (s : Session) → Sound s → After (m s)

  module _ {A B : Type 0} (f : A → Action B) (h : (a : A) → Keeps (f a)) where
    -- The rest of a chain.
    After-bind : (x : Flow A) → After x → After (chain f x)
    After-bind (value a s) v = h a s v
    After-bind (raised s) v = v
    After-bind blocked v = tt
    After-bind undefined v = tt
    After-bind unfinished v = tt

  pub Keeps-bind :
      {A B : Type 0} (m : Action A) (f : A → Action B)
      → Keeps m
      → ((a : A) → Keeps (f a))
      → Keeps (m >>= f)
  Keeps-bind m f k h s v = After-bind f h (m s) (k s v)

  delivered-After :
      (s : Session) (o : Outcome Port)
      → ((p : Port) → o ≡ done p → Serving sys p)
      → After (delivered sys s o)
  unfolding delivered
  delivered-After s fault h = tt
  delivered-After s (done p) h =
      let v = h p refl in
      record { commands = v.commands; reached = v.reached; serves = λ _. v.serves }

  closed-After :
      (s : Session) (o : Outcome Proc)
      → Sound s
      → s.alive ≡ true
      → wasm_driver_entry.stop s.port.driver.proc ≡ o
      → After (closed sys s o)
  unfolding closed
  closed-After s fault v lives e = tt
  closed-After s (done p) v lives e = record {
    commands = v.commands;
    reached = later v.reached (stop (v.serves lives) e) (omega arith);
    serves = λ h. cc;
  }

  pub if-After :
      {A : Type 0} (b : Bool) (x y : Flow A)
      → (b ≡ true → After x)
      → (b ≡ false → After y)
      → After (if b then x else y)
  if-After true x y h k = h refl
  if-After false x y h k = k refl

  pub wasm_send-Keeps : (request : Request) → Keeps (wasm_send sys request)
  unfolding wasm_send
  wasm_send-Keeps request s v =
      if-After s.alive _ (value tt s)
        (λ lives. delivered-After s (port_command sys request s.port) λ p e.
          port_command-Serving sys request s.port
            (record { commands = v.commands; reached = v.reached; serves = v.serves lives }) e)
        (λ _. v)

  pub stop-Keeps : Keeps (Worker.stop sys)
  unfolding Worker.stop
  stop-Keeps s v =
      if-After s.alive _ (value tt s)
        (λ lives. closed-After s (wasm_driver_entry.stop s.port.driver.proc) v lives refl) (λ _. v)

  picked-After :
      {A : Type 0} (s : Session) (o : Option (A × List ErlTerm)) → Sound s → After (picked s o)
  unfolding picked
  picked-After s none v = tt
  picked-After s (some (a, rest)) v = record {
    commands = v.commands;
    reached = v.reached;
    serves = v.serves;
  }

  pub receive-Keeps : {A : Type 0} (fits : ErlTerm → Option A) → Keeps (receive fits)
  unfolding receive
  receive-Keeps fits s v = picked-After s (first_match fits s.inbox) v

  pub catch-After :
      {A : Type 0} (x : Flow A) (handler : Action A)
      → After x
      → Keeps handler
      → After (caught handler x)
  catch-After (value a s) handler v h = v
  catch-After (raised s) handler v h = h s v
  catch-After blocked handler v h = tt
  catch-After undefined handler v h = tt
  catch-After unfinished handler v h = tt

  pub command-Keeps :
      {A : Type 0} (request : Request) (fits : ErlTerm → Option A)
      → Keeps (wasm_send sys request >> receive fits)
  command-Keeps request fits =
      Keeps-bind (wasm_send sys request) (λ _. receive fits) (wasm_send-Keeps request)
        (λ _. receive-Keeps fits)
