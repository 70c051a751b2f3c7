-- ===== src/Port/Deadlock.antt =====
-- The stop of a port that has calls queued.
use hyper_beam.Common.{ℕ, ◌≡◌, refl, ap, ◌∙◌, true, false, List, some, stored, done, arith, ℤ}
use hyper_beam.Core.Values.{WasmVal}
use hyper_beam.Core.Runtime.{Func}
use hyper_beam.Core.Process.{ImportResponse, ImportHook, execute_function, Proc, Job, Driver}
use hyper_beam.Helpers.Terms.{Ei}
use hyper_beam.Beamr.Lifecycle.{stop_signal}
use hyper_beam.Wasm.Import.{Reply, new_response}
use hyper_beam.Wasm.Indirect.{CallApi}
use hyper_beam.Wasm.Execute.{Run, waiting, wasm_execute_function}
use hyper_beam.Wasm.Execute.Turns.{wasm_execute_function-Turn}
use hyper_beam.Port.{
  serving, stopping, Port, Takes, Step, output, initialize, execute, reply, stop, release, Reach,
  later,
}
use hyper_beam.Port.Invariant.{stop_signal-Stopped, unchanged, failed_import}

-- A port whose stop waits for a job that waits for an answer.
record Hung (s : Port) : Type 0 where
  stops : s.phase ≡ stopping
  held : s.driver.proc.locked ≡ true
  r : ImportResponse
  pending : s.driver.proc.current_import ≡ stored (some r)
  unanswered : r.ready ≡ false

Hung-Step : {ei : Ei} {narrow : ℕ → ℕ} {s t : Port} {c : ℕ} → Hung s → Step ei narrow s c t → ⊥
Hung-Step h (output caller buff o e) = absurd (ground (arith, h.stops, o))
Hung-Step h (initialize loader leftover request rest o f q e) = absurd (ground (arith, h.held, f))
Hung-Step h (execute fill api leftover call rest o f q e) = absurd (ground (arith, h.held, f))
Hung-Step h (reply api leftover hook results k r o w p ready e) =
    absurd (ground (arith, h.pending, h.unanswered, p, ready))
Hung-Step h (stop o e) = absurd (ground (arith, h.stops, o))
Hung-Step h (release o f g) = absurd (ground (arith, h.held, f))

-- The stop of a port can wait for ever: it wakes the host call that waits when it begins, and then
-- waits for the mutex, which a queued call may get first. From every state that a port can reach in
-- which it serves, no job has the mutex, and a call is queued which makes a host call when it runs
-- in the port that is being stopped, the port can come to a state from which nothing more can
-- happen: the stop waits for the mutex, the job has it and waits for an answer, and no further
-- command arrives.
pub stop_hangs :
    {ei : Ei} {narrow : ℕ → ℕ} {n : ℕ} {s : Port} {p : Proc} {rest : List Job} {d' : Driver}
    (fill : ℕ → ℕ) (api : CallApi) (leftover : ℤ) (call : Func → List WasmVal → List WasmVal → Run)
    (hook : ImportHook) (results : List WasmVal) (k : Reply → Run)
    → Reach ei narrow n s
    → s.phase ≡ serving
    → s.driver.proc.locked ≡ false
    → Takes execute_function s.driver.jobs rest
    → stop_signal s.driver.proc ≡ done p
    → wasm_execute_function narrow fill api leftover call
        (record s.driver { proc = p; jobs = rest })
      ≡ done (d', waiting hook results k)
    → (t : Port) × Reach ei narrow n t
      × (t.phase ≡ stopping)
      × (t.worker ≡ waiting hook results k)
      × ((c : ℕ) (u : Port) → Step ei narrow t c u → ⊥)
unfolding new_response
stop_hangs {ei} {narrow} {n} {s} {p} {rest} {d'} fill api leftover call hook results k r open_ free
      queued stops asks =
    let stopped : p.locked ≡ false = elim (stop_signal-Stopped s.driver.proc stops) [
      | unchanged e same ↦ ap (λ (q : Proc). q.locked) same ∙ free
      | failed_import i e same ↦ ap (λ (q : Proc). q.locked) same ∙ free
    ] in
    let (sent, same, (held, pending)) =
      wasm_execute_function-Turn narrow fill api leftover call
        (record s.driver { proc = p; jobs = rest }) asks in
    let r₁ = later {n = n} {m = n} r (stop open_ stops) (omega arith) in
    let r₂ =
      later {n = n} {m = n} r₁
        (execute fill api leftover call rest (λ f. cc) stopped
          (record {
            front = queued.front;
            back = queued.back;
            queue_is = queued.queue_is;
            rest_is = queued.rest_is;
          })
          asks)
        (omega arith) in
    (
      _,
      r₂,
      refl,
      refl,
      λ c u. Hung-Step (record {
        stops = refl;
        held = held;
        r = new_response leftover;
        pending = pending;
        unanswered = refl;
      }),
    )
