-- ===== src/Port/Calls.antt =====
-- Calls that are queued: when they may run, and what may have happened to the port by then.
use hyper_beam.Common.{
  ℕ, ◌≡◌, refl, sym, ap, ◌∙◌, Bool, true, false, ◌||◌, List, [], ◌∷◌, ◌++◌, arith,
}
use hyper_beam.Core.Process.{Job, initialize_runtime, execute_function, Proc, Driver}
use hyper_beam.Helpers.Terms.{Ei}
use hyper_beam.Beamr.Output.Answers.{Kept, Answer, message, job, wake_up, output_answers}
use hyper_beam.Wasm.Initialize.Loads.{Ends, loaded, failed, wasm_initialize_runtime-Ends}
use hyper_beam.Wasm.Execute.Turns.{wasm_execute_function-Turn, resume-Turn}
use hyper_beam.Port.{
  Port, new_port, Takes, Step, output, initialize, execute, reply, stop, release, Reach, start,
  later,
}
use hyper_beam.Port.Invariant.{
  is_waiting, IsAssigned, Inv, unchanged, failed_import, stop_signal-Stopped, Reach-Inv,
}

abbrev is_call : Job → Bool
is_call (initialize_runtime request) = false
is_call execute_function = true

abbrev pub has_call : List Job → Bool
has_call [] = false
has_call (j ∷ js) = is_call j || has_call js

-- No call is queued before the port is initialized.
abbrev CallsReady : Driver → Type 0
CallsReady d = has_call d.jobs ≡ true → d.proc.is_initialized ≡ true

has_call-append : (xs ys : List Job) → has_call (xs ++ ys) ≡ (has_call xs || has_call ys)
has_call-append [] ys = refl
has_call-append (initialize_runtime request ∷ xs) ys = has_call-append xs ys
has_call-append (execute_function ∷ xs) ys = refl

has_call-rest :
    {j : Job} {jobs rest : List Job}
    → Takes j jobs rest
    → has_call rest ≡ true
    → has_call jobs ≡ true
has_call-rest {j} t h = ground (
  arith,
  t.queue_is,
  t.rest_is,
  has_call-append t.front (j ∷ t.back),
  has_call-append t.front t.back,
)

has_call-execute : {jobs rest : List Job} → Takes execute_function jobs rest → has_call jobs ≡ true
has_call-execute t = ground (arith, t.queue_is, has_call-append t.front (execute_function ∷ t.back))

-- The queue and the flag after a command.
output-CallsReady : {d d' : Driver} → Kept d d' → Answer d d' → CallsReady d → CallsReady d'
output-CallsReady kept (message m s j p) v = ground arith
output-CallsReady {d} kept (job (initialize_runtime request) s q c n) v =
    ground (arith, has_call-append d.jobs (initialize_runtime request ∷ []))
output-CallsReady kept (job execute_function s q c n) v = λ h. kept.same_state ∙ n refl
output-CallsReady kept (wake_up r r' e e' a s q) v = ground arith

initialize-CallsReady : {d d' : Driver} → Ends d d' → CallsReady d → CallsReady d'
initialize-CallsReady (s, j, l, loaded r) v = λ h. r.initialized
initialize-CallsReady (s, j, l, failed t e i c a) v = λ h. i ∙ v (ap has_call (sym j) ∙ h)

Step-CallsReady :
    {ei : Ei} {narrow : ℕ → ℕ} {s t : Port} {c : ℕ}
    → Step ei narrow s c t
    → Inv s.driver s.worker
    → CallsReady s.driver
    → CallsReady t.driver
Step-CallsReady {ei} {s} (output caller buff o e) v r =
    let (kept, answer) = output_answers ei caller buff s.driver e in output-CallsReady kept answer r
Step-CallsReady {s} (initialize loader leftover request rest o f q e) v r =
    let popped = record s.driver { jobs = rest } in
    initialize-CallsReady {d = popped}
      (wasm_initialize_runtime-Ends loader leftover request popped e) (λ h. r (has_call-rest q h))
Step-CallsReady {narrow} {s} (execute fill api leftover call rest o f q e) v r =
    let popped = record s.driver { jobs = rest } in
    let (sent, (j, i, c, n), left) =
      wasm_execute_function-Turn narrow fill api leftover call popped e in
    λ h. n ∙ r (has_call-rest q (ap has_call (sym j) ∙ h))
Step-CallsReady {narrow} {s} (reply api leftover hook results k p o w q ready e) v r =
    let (sent, (j, i, c, n), left) =
      resume-Turn narrow api leftover hook results k s.driver (v.lock ∙ ap is_waiting w) e in
    λ h. n ∙ r (ap has_call (sym j) ∙ h)
Step-CallsReady {s} (stop o e) v r = elim (stop_signal-Stopped s.driver.proc e) [
  | unchanged c p ↦ λ h. ap (λ (q : Proc). q.is_initialized) p ∙ r h
  | failed_import i c p ↦ λ h. ap (λ (q : Proc). q.is_initialized) p ∙ r h
]
Step-CallsReady (release o f g) v r = r

Reach-CallsReady :
    {ei : Ei} {narrow : ℕ → ℕ} {n : ℕ} {s : Port} → Reach ei narrow n s → CallsReady s.driver
unfolding new_port
Reach-CallsReady (start port now memories) = λ h. cc
Reach-CallsReady (later r st e) = Step-CallsReady st (Reach-Inv r) (Reach-CallsReady r)

-- When a queued call is taken, the port is initialized, and the module, the instance and the pending
-- import in the process structure have been assigned, whatever has come before. Of the function's
-- name and the arguments this says nothing.
pub calls_initialized :
    {ei : Ei} {narrow : ℕ → ℕ} {n : ℕ} {s : Port} {rest : List Job}
    → Reach ei narrow n s
    → Takes execute_function s.driver.jobs rest
    → (s.driver.proc.is_initialized ≡ true) × IsAssigned s.driver.proc
calls_initialized r t =
    let on = Reach-CallsReady r (has_call-execute t) in (on, (Reach-Inv r).assigned on)
