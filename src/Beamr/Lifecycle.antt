-- ===== src/Beamr/Lifecycle.antt =====
-- native/hb_beamr/hb_beamr.c: the start and the stop of a port.
pub mod Fresh
use hyper_beam.Common.{
  ℕ, Bool, true, false, [], ◌∷◌, List, Option, none, some, Cell, junk, stored, Outcome, done, fault,
  ◌>>=◌, fetch, if◌then◌else◌,
}
use hyper_beam.Core.Objects.{Objects, delete, delete_any}
use hyper_beam.Core.Message.{codes}
use hyper_beam.Core.Process.{ImportResponse, Proc, Driver}

-- `driver_alloc` leaves every field uninitialised that is not assigned here.
unfoldable pub wasm_driver_start : ℕ → ℕ → Proc
wasm_driver_start port now = record {
  port = port;
  pid = junk;
  start_time = now;
  engine = junk;
  store = junk;
  instance_object = junk;
  module_object = junk;
  instance_ = junk;
  module_ = junk;
  current_function = junk;
  current_args = junk;
  current_import = junk;
  indirect_func_table_ix = junk;
  indirect_func_table = junk;
  is_initialized = false;
  locked = false;
}

unfoldable pub fail_import : ImportResponse → ImportResponse
fail_import r = record r {
  error_message = stored (some (codes "WASM driver unloaded during import response"));
  ready = true;
}

-- `wasm_driver_stop` up to the point where it waits for the mutex `is_running`: a thread that waits
-- for an import response is woken with an error.
unfoldable pub stop_signal : Proc → Outcome Proc
unfolding fail_import
stop_signal p = fetch p.current_import >>= λ pending. elim pending [
  | none ↦ done p
  | some r ↦ done (record p { current_import = stored (some (fail_import r)) })
]

-- What `wasm_driver_stop` gives back once it has had the mutex, in order.
pub data Released : Type 0 where
  mutex_destroyed instance_deleted module_deleted store_deleted proc_freed : Released

unfoldable pub stop_release : Proc → List Released
stop_release p =
    if p.is_initialized
    then mutex_destroyed ∷ instance_deleted ∷ module_deleted ∷ store_deleted ∷ proc_freed ∷ []
    else mutex_destroyed ∷ proc_freed ∷ []

-- The deletions of the runtime's objects among these.
unfoldable pub stop_objects : Proc → Objects → Outcome Objects
stop_objects p o =
    if p.is_initialized
    then (fetch p.instance_object >>= λ instance. delete_any instance o >>= λ o.
        fetch p.module_object >>= λ module_.
        delete_any module_ o >>= λ o. fetch p.store >>= λ store. delete store o)
    else done o
