-- ===== src/Wasm/Initialize/Failure.antt =====
-- An initialization whose binary is no module, and the stop of a port after it.
use hyper_beam.Common.{
  ℕ, ◌+◌, ◌≡◌, refl, true, Bytes, List, ◌∷◌, Option, none, some, stored, done, fault, false, arith,
  ◌≤◌, >>=-fault, ensures_done, junk, Cell,
}
use hyper_beam.Core.Objects.{Objects, delete}
use hyper_beam.Core.Objects.Deletion.{remove-here, Below, remove-fault, delete-Below}
use hyper_beam.Core.Message.{codes}
use hyper_beam.Core.Process.{LoadWasmReq, Proc, Driver}
use hyper_beam.Beamr.Lifecycle.{stop_objects}
use hyper_beam.Logging.{send_error}
use hyper_beam.Wasm.Initialize.{
  Loader, lock, create_store, delete_store, after_load, wasm_initialize_runtime,
}

-- The port after its module could not be created.
abbrev pub unloaded : Driver → Driver
unloaded d =
    let engine = d.objects.next in
    let d₁ = send_error (codes "Failed to create module.") (lock d) in
    record d₁ {
      proc = record d.proc {
        engine = stored engine;
        store = stored (engine + 1);
        module_ = stored none;
        module_object = stored none;
        locked = false;
      };
      objects = record d.objects { next = engine + 1 + 1 + 1 };
    }

delete_store-eq :
    (d : Driver) (n : ℕ) (live : List ℕ)
    → d.proc.engine ≡ stored n
    → d.proc.store ≡ stored (n + 1)
    → d.objects.live ≡ (n + 1 + 1) ∷ (n + 1) ∷ n ∷ live
    → delete_store (n + 2) d ≡ done (record d { objects = record d.objects { live = live } })
unfolding delete_store
delete_store-eq d n live e s l =
    rw
      (
        l,
        remove-here (n + 2) (n + 1 + 1) ((n + 1) ∷ n ∷ live) (omega arith),
        s,
        remove-here (n + 1) (n + 1) (n ∷ live) refl,
        e,
        remove-here n n live refl,
      )
      refl

-- A binary that is no module: what was made has been deleted.
pub after_load-failed :
    (loader : Loader) (leftover : ℕ → Bytes) (d : Driver)
    → after_load loader leftover (d.objects.next + 2) (create_store (lock d)) none
      ≡ done (unloaded d)
unfolding create_store after_load send_error
after_load-failed loader leftover d =
    let d₁ = send_error (codes "Failed to create module.") (record (create_store (lock d)) {
      proc = record (create_store (lock d)).proc {
        module_ = stored none;
        module_object = stored none;
      };
    }) in
    rw (delete_store-eq d₁ d.objects.next d.objects.live refl refl refl) refl

pub failed_load :
    (loader : Loader) (leftover : ℕ → Bytes) (request : LoadWasmReq) (d : Driver)
    → loader.module_new request.binary request.size ≡ none
    → wasm_initialize_runtime loader leftover request d ≡ done (unloaded d)
unfolding wasm_initialize_runtime
failed_load loader leftover request d fails = rw fails (after_load-failed loader leftover d)

-- The stop of a port that holds on to a store which is already deleted, and to no module.
pub stop-fault :
    (p : Proc) (o : Objects) (n store : ℕ) (c : Cell (Option ℕ))
    → p.is_initialized ≡ true
    → p.instance_object ≡ c
    → p.module_object ≡ stored none
    → p.store ≡ stored store
    → Below n o.live
    → n ≤ store
    → stop_objects p o ≡ fault
unfolding stop_objects
stop-fault p o n store junk on i m s b le = rw (on, i) refl
stop-fault p o n store (stored none) on i m s b le =
    rw (on, i, m, s, remove-fault n store o.live b le) refl
stop-fault p o n store (stored (some instance)) on i m s b le =
    rw (on, i)
      (>>=-fault (delete instance o) _ λ o' e.
        let below =
          ensures_done (λ o'. Below n o'.live) (delete instance o) (delete-Below n instance o b)
            e in
        rw (m, s, remove-fault n store o'.live below le) refl)
