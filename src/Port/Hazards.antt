-- ===== src/Port/Hazards.antt =====
-- The stop of a port that has jobs queued, and a further `init` of a port that has a module.
use hyper_beam.Common.{
  ℕ, ◌≡◌, refl, ◌∙◌, true, false, Bytes, List, Option, some, none, Cell, junk, stored, is_stored,
  done, fault, arith, ℤ,
}
use hyper_beam.Core.Values.{WasmVal}
use hyper_beam.Core.Runtime.{Func, Instance}
use hyper_beam.Core.Process.{ImportResponse, Terms, LoadWasmReq, Proc, Driver}
use hyper_beam.Helpers.Terms.{Ei}
use hyper_beam.Helpers.Exports.{get_exported_function}
use hyper_beam.Logging.{send_error}
use hyper_beam.Beamr.Lifecycle.{stop_signal, fail_import, stop_objects}
use hyper_beam.Core.Objects.{Objects}
use hyper_beam.Beamr.Output.Calls.{called}
use hyper_beam.Wasm.Indirect.{CallApi}
use hyper_beam.Wasm.Initialize.{Loader, lock, wasm_initialize_runtime}
use hyper_beam.Wasm.Initialize.Failure.{unloaded, failed_load}
use hyper_beam.Wasm.Execute.{Run, execute_begin, wasm_execute_function}
use hyper_beam.Port.{serving, freed, Port, stop, release, Reach, later}
use hyper_beam.Port.Invariant.{Reach-Inv}

-- `wasm_driver_stop` reads the pending import only: with one that was assigned it goes on, and
-- deletes the same objects.
stop_signal-assigned :
    (p : Proc) (c : Cell (Option ImportResponse))
    → p.current_import ≡ c
    → is_stored c ≡ true
    → (p' : Proc) × (stop_signal p ≡ done p')
      × (p'.locked ≡ p.locked)
      × ((o : Objects) → stop_objects p' o ≡ stop_objects p o)
unfolding stop_signal stop_objects
stop_signal-assigned p junk e h = cc
stop_signal-assigned p (stored none) e h = (p, ground (arith, e), refl, λ o. refl)
stop_signal-assigned p (stored (some r)) e h = (
  record p { current_import = stored (some (fail_import r)) },
  ground (arith, e),
  refl,
  λ o. refl,
)

-- Nothing keeps the stop of a port from freeing the process structure while jobs are queued that
-- use it: from every state that an initialized port can reach in which no job has the mutex and the
-- deletions of its objects are defined, it can be stopped and freed with the same jobs still queued.
pub stop_keeps_jobs :
    {ei : Ei} {narrow : ℕ → ℕ} {n : ℕ} {s : Port} {o : Objects}
    → Reach ei narrow n s
    → s.phase ≡ serving
    → s.driver.proc.is_initialized ≡ true
    → s.driver.proc.locked ≡ false
    → stop_objects s.driver.proc s.driver.objects ≡ done o
    → (t : Port) × Reach ei narrow n t × (t.phase ≡ freed) × (t.driver.jobs ≡ s.driver.jobs)
stop_keeps_jobs {n} {s} r open_ on free deletes =
    let p = s.driver.proc in
    let (p', stops, same, deletes_same) =
      stop_signal-assigned p p.current_import refl ((Reach-Inv r).assigned on).0 in
    (
      _,
      later {n = n} (later {n = n} {m = n} r (stop open_ stops) (omega arith))
          (release refl (same ∙ free) (deletes_same s.driver.objects ∙ deletes)) (omega arith),
      refl,
      refl,
    )

-- Without a module no function is found.
get_exported_function-fault :
    (p : Proc) (name : Bytes) (i : Cell (Option Instance))
    → p.instance_ ≡ i
    → p.module_ ≡ stored none
    → get_exported_function p name ≡ fault
unfolding get_exported_function
get_exported_function-fault p name junk e m = rw e refl
get_exported_function-fault p name (stored none) e m = rw e refl
get_exported_function-fault p name (stored (some i)) e m = rw (e, m) refl

-- A further `init` whose binary is no module takes the module from a port that has one, and the port
-- stays initialized: it goes on accepting calls, and each of them is an access through `NULL`.
pub reload_loses_module :
    (narrow fill : ℕ → ℕ) (api : CallApi) (unset : ℤ)
    (call : Func → List WasmVal → List WasmVal → Run) (loader : Loader) (leftover : ℕ → Bytes)
    (request : LoadWasmReq) (name : Bytes) (args : Terms) (d : Driver)
    → loader.module_new request.binary request.size ≡ none
    → (d' : Driver) × (wasm_initialize_runtime loader leftover request d ≡ done d')
      × (d'.proc.is_initialized ≡ d.proc.is_initialized)
      × (wasm_execute_function narrow fill api unset call (called name args d') ≡ fault)
unfolding wasm_execute_function execute_begin send_error
reload_loses_module narrow fill api unset call loader leftover request name args d fails = (
  unloaded d,
  failed_load loader leftover request d fails,
  refl,
  rw
      (get_exported_function-fault (lock (called name args (unloaded d))).proc name d.proc.instance_
        refl refl)
      refl,
)
