-- ===== src/Client/Reach/Ports.antt =====
-- src/hb_beamr.erl: a command that is sent, as steps of the port.
use hyper_beam.Common.{
  ℕ, ◌+◌, ◌≡◌, ◌≢◌, refl, sym, subst, Bool, true, false, List, [], ◌∷◌, Option, none, some, stored,
  done, fetch, fetch-eq-done, >>=-eq-done, done-injective, Bool-cases, if◌then◌else◌, inl, inr,
  arith,
}
use hyper_beam.Core.Values.{WasmVal}
use hyper_beam.Core.Process.{ImportResponse, ImportHook, Job, initialize_runtime, execute_function}
use hyper_beam.Beamr.Entry.{wasm_driver_entry}
use hyper_beam.Wasm.Import.{Reply}
use hyper_beam.Wasm.Initialize.{wasm_initialize_runtime}
use hyper_beam.Wasm.Execute.{Run, Worker, idle, waiting, wasm_execute_function, resume}
use hyper_beam.Port.{serving, freed, Port, Takes, output, initialize, execute, reply, Reach, later}
use hyper_beam.Client.Session.{Request, System}
use hyper_beam.Client.Worker.{run_job, wake_thread, proceed, port_command}

-- The job at the head of the queue.
head-Takes : (j : Job) (js : List Job) → Takes j (j ∷ js) js
head-Takes j js = record { front = []; back = js; queue_is = refl; rest_is = refl }

if-true : {A : Type 0} (b : Bool) (x y : A) {z : A} → b ≡ true → (if b then x else y) ≡ z → x ≡ z
if-true true x y e h = h
if-true false x y e h = cc

if-false : {A : Type 0} (b : Bool) (x y : A) {z : A} → b ≡ false → (if b then x else y) ≡ z → y ≡ z
if-false true x y e h = cc
if-false false x y e h = h

module _ (sys : System) where
  -- A port that can be reached and serves.
  pub record Serving (p : Port) : Type 0 where
    pub commands : ℕ
    pub reached : Reach sys.ei sys.narrow commands p
    pub serves : p.phase ≡ serving

  not_freed : {p : Port} → Serving p → p.phase ≢ freed
  not_freed v = λ e. cc (v.serves)

  run_job-Serving :
      (p : Port) (jobs : List Job) {p' : Port}
      → Serving p
      → p.driver.proc.locked ≡ false
      → p.driver.jobs ≡ jobs
      → run_job sys p jobs ≡ done p'
      → Serving p'
  unfolding run_job
  run_job-Serving p [] v free q e = subst Serving (done-injective e) v
  run_job-Serving p (initialize_runtime request ∷ rest) v free q e =
      let (d, made, same) =
        >>=-eq-done
          (wasm_initialize_runtime sys.loader sys.garbage request (record p.driver { jobs = rest }))
          _ e in
      subst Serving (done-injective same) (record {
        commands = v.commands;
        reached =
            later v.reached
              (initialize sys.loader sys.garbage request rest (not_freed v) free
                (subst (λ js. Takes (initialize_runtime request) js rest) (sym q)
                  (head-Takes (initialize_runtime request) rest))
                made)
              (omega arith);
        serves = v.serves;
      })
  run_job-Serving p (execute_function ∷ rest) v free q e =
      let (o, made, same) =
        >>=-eq-done
          (wasm_execute_function sys.narrow sys.fill sys.api sys.leftover sys.run
            (record p.driver { jobs = rest }))
          _ e in
      subst Serving (done-injective same) (record {
        commands = v.commands;
        reached =
            later v.reached
              (execute sys.fill sys.api sys.leftover sys.run rest (not_freed v) free
                (subst (λ js. Takes execute_function js rest) (sym q)
                  (head-Takes execute_function rest))
                made)
              (omega arith);
        serves = v.serves;
      })

  wake_thread-Serving :
      (p : Port) (hook : ImportHook) (results : List WasmVal) (k : Reply → Run)
      (pending : Option ImportResponse) {p' : Port}
      → Serving p
      → p.worker ≡ waiting hook results k
      → p.driver.proc.current_import ≡ stored pending
      → wake_thread sys p hook results k pending ≡ done p'
      → Serving p'
  unfolding wake_thread
  wake_thread-Serving p hook results k none v w q e = subst Serving (done-injective e) v
  wake_thread-Serving p hook results k (some r) v w q e = elim (Bool-cases r.ready) [
    | inl on ↦
        let (o, made, same) =
          >>=-eq-done (resume sys.narrow sys.api sys.leftover hook results k p.driver) _
            (if-true r.ready _ _ on e) in
        subst Serving (done-injective same) (record {
          commands = v.commands;
          reached =
              later v.reached
                (reply sys.api sys.leftover hook results k r (not_freed v) w q on made)
                (omega arith);
          serves = v.serves;
        })
    | inr off ↦ subst Serving (done-injective (if-false r.ready _ _ off e)) v
  ]

  proceed-Serving :
      (p : Port) (w : Worker) {p' : Port}
      → Serving p
      → p.worker ≡ w
      → proceed sys p w ≡ done p'
      → Serving p'
  unfolding proceed
  proceed-Serving p idle v w e = elim (Bool-cases p.driver.proc.locked) [
    | inl held ↦ subst Serving (done-injective (if-true p.driver.proc.locked _ _ held e)) v
    | inr free ↦
        run_job-Serving p p.driver.jobs v free refl (if-false p.driver.proc.locked _ _ free e)
  ]
  proceed-Serving p (waiting hook results k) v w e =
      let (pending, fetched, woken) =
        >>=-eq-done (fetch p.driver.proc.current_import) (wake_thread sys p hook results k) e in
      wake_thread-Serving p hook results k pending v w
        (fetch-eq-done p.driver.proc.current_import fetched) woken

  pub port_command-Serving :
      (request : Request) (p : Port) {p' : Port}
      → Serving p
      → port_command sys request p ≡ done p'
      → Serving p'
  unfolding port_command
  port_command-Serving request p v e =
      let (d, taken, goes) =
        >>=-eq-done
          (wasm_driver_entry.output sys.ei sys.caller (sys.codec.term_to_binary request) p.driver)
          (λ d. proceed sys (record p { driver = d }) p.worker) e in
      proceed-Serving (record p { driver = d }) p.worker
        (record {
          commands = v.commands + 1;
          reached = later v.reached (output sys.caller _ v.serves taken) refl;
          serves = v.serves;
        })
        refl goes
