-- ===== src/Port/Invariant.antt =====
-- What holds of a port at any time: who has the mutex, and what has been assigned.
use hyper_beam.Common.{
  ℕ, Bool, true, false, ◌≡◌, refl, ap, ◌∙◌, Option, some, none, Cell, junk, stored, is_stored, ℤ,
  done, arith, List,
}
use hyper_beam.Core.Runtime.{Memory}
use hyper_beam.Core.Process.{ImportResponse, Proc, Driver}
use hyper_beam.Helpers.Terms.{Ei}
use hyper_beam.Beamr.Lifecycle.{stop_signal, fail_import, wasm_driver_start}
use hyper_beam.Beamr.Output.Answers.{Kept, Answer, message, job, wake_up, output_answers}
use hyper_beam.Wasm.Initialize.Loads.{Ends, loaded, failed, wasm_initialize_runtime-Ends}
use hyper_beam.Wasm.Execute.{Worker, idle, waiting}
use hyper_beam.Wasm.Execute.Turns.{Turn, wasm_execute_function-Turn, resume-Turn}
use hyper_beam.Port.{
  Port, new_port, Step, output, initialize, execute, reply, stop, release, Reach, start, later,
}

abbrev pub is_waiting : Worker → Bool
is_waiting idle = false
is_waiting (waiting hook results k) = true

-- An import is pending.
abbrev pub has_import : Cell (Option ImportResponse) → Bool
has_import junk = false
has_import (stored none) = false
has_import (stored (some r)) = true

-- What the code reads of a port's process has been assigned, if only with `NULL`.
abbrev pub IsAssigned : Proc → Type 0
IsAssigned p =
    (is_stored p.current_import ≡ true)
    × (is_stored p.module_ ≡ true)
    × (is_stored p.instance_ ≡ true)

pub record Inv (d : Driver) (w : Worker) : Type 0 where
  pub lock : d.proc.locked ≡ is_waiting w
  pub pending : is_waiting w ≡ true → has_import d.proc.current_import ≡ true
  pub assigned : d.proc.is_initialized ≡ true → IsAssigned d.proc

output-Inv : {d d' : Driver} {w : Worker} → Kept d d' → Answer d d' → Inv d w → Inv d' w
output-Inv kept (message m s j p) v = ground arith
output-Inv kept (job j s q c n) v = ground arith
output-Inv kept (wake_up r r' e e' a s q) v = ground arith

initialize-Inv :
    {d d' : Driver} {w : Worker} → Ends d d' → d.proc.locked ≡ false → Inv d w → Inv d' w
initialize-Inv (s, j, l, loaded r) f v = ground arith
initialize-Inv (s, j, l, failed t e i c (am, ai)) f v = ground arith

Turn-Inv :
    {d d' : Driver} {w w' : Worker} (leftover : ℤ) → Turn leftover d (d', w') → Inv d w → Inv d' w'
Turn-Inv {w' = idle} leftover (m, (j, i, c, n), (l, a)) v = ground arith
Turn-Inv {w' = waiting hook results k} leftover (m, (j, i, c, n), (l, p)) v = ground arith

-- What the stop of a port does to the pending import.
pub data Stopped (p p' : Proc) : Type 0 where
  unchanged : p.current_import ≡ stored none → p' ≡ p → Stopped p p'
  failed_import :
      (r : ImportResponse)
      → p.current_import ≡ stored (some r)
      → p' ≡ record p { current_import = stored (some (fail_import r)) }
      → Stopped p p'

stop_signal-Stopped_by :
    (p : Proc) (c : Cell (Option ImportResponse)) {p' : Proc}
    → p.current_import ≡ c
    → stop_signal p ≡ done p'
    → Stopped p p'
unfolding stop_signal
stop_signal-Stopped_by p junk e h = absurd (ground (arith, e, h))
stop_signal-Stopped_by p (stored none) e h = unchanged e (ground (arith, e, h))
stop_signal-Stopped_by p (stored (some r)) e h = failed_import r e (ground (arith, e, h))

pub stop_signal-Stopped : (p : Proc) {p' : Proc} → stop_signal p ≡ done p' → Stopped p p'
stop_signal-Stopped p h = stop_signal-Stopped_by p p.current_import refl h

stop-Inv :
    {d : Driver} {p : Proc} {w : Worker}
    → Stopped d.proc p
    → Inv d w
    → Inv (record d { proc = p }) w
stop-Inv (unchanged e s) v = ground arith
stop-Inv (failed_import r e s) v = ground arith

Step-Inv :
    {ei : Ei} {narrow : ℕ → ℕ} {s t : Port} {c : ℕ}
    → Step ei narrow s c t
    → Inv s.driver s.worker
    → Inv t.driver t.worker
Step-Inv {ei} {s} (output caller buff o e) v =
    let (kept, answer) = output_answers ei caller buff s.driver e in output-Inv kept answer v
Step-Inv {s} (initialize loader leftover request rest o f q e) v =
    let popped = record s.driver { jobs = rest } in
    initialize-Inv {d = popped} (wasm_initialize_runtime-Ends loader leftover request popped e) f
      (record { lock = v.lock; pending = v.pending; assigned = v.assigned })
Step-Inv {narrow} {s} (execute fill api leftover call rest o f q e) v =
    let popped = record s.driver { jobs = rest } in
    Turn-Inv {d = popped} {w = s.worker} leftover
      (wasm_execute_function-Turn narrow fill api leftover call popped e)
      (record { lock = v.lock; pending = v.pending; assigned = v.assigned })
Step-Inv {narrow} {s} (reply api leftover hook results k r o w p ready e) v =
    Turn-Inv {w = s.worker} leftover
      (resume-Turn narrow api leftover hook results k s.driver (v.lock ∙ ap is_waiting w) e) v
Step-Inv {s} (stop o e) v = stop-Inv (stop_signal-Stopped s.driver.proc e) v
Step-Inv (release o f g) v = record { lock = v.lock; pending = v.pending; assigned = v.assigned }

new_port-Inv :
    (port now : ℕ) (memories : List Memory)
    → Inv (new_port port now memories).driver (new_port port now memories).worker
unfolding new_port wasm_driver_start
new_port-Inv port now memories = record { lock = refl; pending = λ h. cc; assigned = λ h. cc }

-- At any time, whatever commands have come and whatever the called code, the runtime and the
-- schedule of the jobs have been: the mutex `is_running` is held exactly while a job waits in a host
-- call; an import is pending then; and once the port is initialized, the pending import, the module
-- and the instance are no longer uninitialised memory.
pub Reach-Inv :
    {ei : Ei} {narrow : ℕ → ℕ} {n : ℕ} {s : Port} → Reach ei narrow n s → Inv s.driver s.worker
Reach-Inv (start port now memories) = new_port-Inv port now memories
Reach-Inv (later r st e) = Step-Inv st (Reach-Inv r)
