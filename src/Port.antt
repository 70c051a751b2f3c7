-- ===== src/Port.antt =====
-- A port as a whole: the callbacks of native/hb_beamr/hb_beamr.c, which Erlang's commands and the
-- end of the port call one at a time, and the jobs of native/hb_beamr/hb_wasm.c in their threads,
-- which the mutex `is_running` keeps apart. A step is what one of them does between two points at
-- which it waits.
pub mod Invariant
pub mod Accounts
pub mod Calls
pub mod Hazards
pub mod Deadlock
pub mod Transcript
pub mod Conversation
pub mod Protocol
pub mod Loading
pub mod Shutdown
pub mod Writing
use hyper_beam.Common.{
  ℕ, zero, suc, ◌+◌, Bool, true, false, Bytes, List, [], ◌∷◌, ◌++◌, Option, some, none, Cell,
  stored, junk, done, ℤ, ◌≡◌, ◌≢◌,
}
use hyper_beam.Core.Objects.{Objects}
use hyper_beam.Core.Values.{WasmVal}
use hyper_beam.Core.Runtime.{Func, Memory}
use hyper_beam.Core.Process.{
  ImportResponse, Proc, LoadWasmReq, ImportHook, Job, initialize_runtime, execute_function, Driver,
}
use hyper_beam.Helpers.Terms.{Ei}
use hyper_beam.Beamr.Lifecycle.{Released, stop_release, stop_objects}
use hyper_beam.Beamr.Entry.{wasm_driver_entry}
use hyper_beam.Wasm.Import.{Reply}
use hyper_beam.Wasm.Indirect.{CallApi}
use hyper_beam.Wasm.Initialize.{Loader, wasm_initialize_runtime}
use hyper_beam.Wasm.Execute.{Run, Worker, idle, waiting, wasm_execute_function, resume}

-- The port is open; `wasm_driver_stop` waits for the mutex; the process structure is gone.
pub data Phase : Type 0 where
  serving stopping freed : Phase

pub record Port : Type 0 where
  pub driver : Driver
  pub worker : Worker
  pub phase : Phase
  pub released : List Released

-- A port that was started, in a store with some memories.
unfoldable pub new_port : ℕ → ℕ → List Memory → Port
new_port port now memories = record {
  driver = record {
    proc = wasm_driver_entry.start port now;
    memories = memories;
    objects = record { next = 0; live = [] };
    sent = [];
    jobs = [];
  };
  worker = idle;
  phase = serving;
  released = [];
}

-- A job that `driver_async` was given has been taken by a thread, whichever comes first.
pub record Takes (j : Job) (jobs rest : List Job) : Type 0 where
  pub front : List Job
  pub back : List Job
  pub queue_is : jobs ≡ front ++ (j ∷ back)
  pub rest_is : rest ≡ front ++ back

-- A step of a port, with the number of commands that arrive in it. What the runtime and chance
-- contribute may differ from step to step.
pub data Step (ei : Ei) (narrow : ℕ → ℕ) (s : Port) : ℕ → Port → Type 0 where
  output :
      (caller : ℕ) (buff : Bytes) {d' : Driver}
      → s.phase ≡ serving
      → wasm_driver_entry.output ei caller buff s.driver ≡ done d'
      → Step ei narrow s 1 (record s { driver = d' })
  initialize :
      (loader : Loader) (leftover : ℕ → Bytes) (request : LoadWasmReq) (rest : List Job)
      {d' : Driver}
      → s.phase ≢ freed
      → s.driver.proc.locked ≡ false
      → Takes (initialize_runtime request) s.driver.jobs rest
      → wasm_initialize_runtime loader leftover request (record s.driver { jobs = rest }) ≡ done d'
      → Step ei narrow s 0 (record s { driver = d' })
  execute :
      (fill : ℕ → ℕ) (api : CallApi) (leftover : ℤ)
      (call : Func → List WasmVal → List WasmVal → Run) (rest : List Job) {d' : Driver}
      {w' : Worker}
      → s.phase ≢ freed
      → s.driver.proc.locked ≡ false
      → Takes execute_function s.driver.jobs rest
      → wasm_execute_function narrow fill api leftover call (record s.driver { jobs = rest })
        ≡ done (d', w')
      → Step ei narrow s 0 (record s { driver = d'; worker = w' })
  reply :
      (api : CallApi) (leftover : ℤ) (hook : ImportHook) (results : List WasmVal) (k : Reply → Run)
      (r : ImportResponse) {d' : Driver} {w' : Worker}
      → s.phase ≢ freed
      → s.worker ≡ waiting hook results k
      → s.driver.proc.current_import ≡ stored (some r)
      → r.ready ≡ true
      → resume narrow api leftover hook results k s.driver ≡ done (d', w')
      → Step ei narrow s 0 (record s { driver = d'; worker = w' })
  stop :
      {p : Proc}
      → s.phase ≡ serving
      → wasm_driver_entry.stop s.driver.proc ≡ done p
      → Step ei narrow s 0 (record s { driver = record s.driver { proc = p }; phase = stopping })
  release :
      {o : Objects}
      → s.phase ≡ stopping
      → s.driver.proc.locked ≡ false
      → stop_objects s.driver.proc s.driver.objects ≡ done o
      → Step ei narrow s 0 (record s {
        driver = record s.driver { objects = o };
        phase = freed;
        released = stop_release s.driver.proc;
      })

-- What a port can come to after a number of commands.
pub data Reach (ei : Ei) (narrow : ℕ → ℕ) : ℕ → Port → Type 0 where
  start : (port now : ℕ) (memories : List Memory) → Reach ei narrow 0 (new_port port now memories)
  later :
      {n c m : ℕ} {s t : Port}
      → Reach ei narrow n s
      → Step ei narrow s c t
      → m ≡ n + c
      → Reach ei narrow m t
