-- ===== src/Port/Protocol.antt =====
-- The protocol between Erlang and a port, with the mutex, the queue and the data left out.
use hyper_beam.Common.{
  ℕ, ◌≡◌, refl, sym, ap, ◌∙◌, Bool, true, false, ◌⊎◌, inl, inr, Option, some, none, Cell, junk,
  stored, arith, ℤ,
}
use hyper_beam.Core.Process.{ImportResponse, Proc, Driver}
use hyper_beam.Helpers.Terms.{Ei}
use hyper_beam.Beamr.Lifecycle.{fail_import}
use hyper_beam.Beamr.Output.Answers.{Kept, Answer, message, job, wake_up, output_answers}
use hyper_beam.Wasm.Import.{new_response}
use hyper_beam.Wasm.Initialize.Loads.{Ends, loaded, failed, wasm_initialize_runtime-Ends}
use hyper_beam.Wasm.Execute.{Worker, idle, waiting}
use hyper_beam.Wasm.Execute.Turns.{Turn, wasm_execute_function-Turn, resume-Turn}
use hyper_beam.Port.{
  Port, new_port, Step, output, initialize, execute, reply, stop, release, Reach, start, later,
}
use hyper_beam.Port.Invariant.{
  is_waiting, Stopped, unchanged, failed_import, stop_signal-Stopped, Reach-Inv,
}
use hyper_beam.Port.Calls.{calls_initialized}

-- No job waits in a host call, and `is_initialized` is not set or is set; a job waits in a host call
-- that has not been answered, or has been.
pub data Stage : Type 0 where
  uninitialized resting asked answered : Stage

pub data StageStep : Stage → Stage → Type 0 where
  load : StageStep uninitialized resting
  ask : StageStep resting asked
  answer : StageStep asked answered
  ask_again : StageStep answered asked
  finish : StageStep answered resting

-- The pending import has been answered.
abbrev pub is_answered : Cell (Option ImportResponse) → Bool
is_answered junk = false
is_answered (stored none) = false
is_answered (stored (some r)) = r.ready

abbrev pub stage_of : Bool → Bool → Bool → Stage
stage_of true initialized true = answered
stage_of true initialized false = asked
stage_of false true ready = resting
stage_of false false ready = uninitialized

abbrev pub stage : Driver → Worker → Stage
stage d w = stage_of (is_waiting w) d.proc.is_initialized (is_answered d.proc.current_import)

abbrev pub Proceeds : Stage → Stage → Type 0
Proceeds a b = (b ≡ a) ⊎ StageStep a b

-- A job is under way in a port that is initialized only.
abbrev Works : Driver → Worker → Type 0
Works d w = is_waiting w ≡ true → d.proc.is_initialized ≡ true

-- The flag that an answer sets, and nothing that takes it back.
answers_once :
    (w n r r' : Bool) → (r ≡ true → r' ≡ true) → Proceeds (stage_of w n r) (stage_of w n r')
answers_once true n true r' h = rw (h refl) (inl refl)
answers_once true n false true h = inr answer
answers_once true n false false h = inl refl
answers_once false true r r' h = inl refl
answers_once false false r r' h = inl refl

not_waiting :
    (w : Worker) (n n' r r' : Bool)
    → is_waiting w ≡ false
    → (n ≡ true → n' ≡ true)
    → Proceeds (stage_of (is_waiting w) n r) (stage_of (is_waiting w) n' r')
not_waiting w true n' r r' i h = rw (i, h refl) (inl refl)
not_waiting w false true r r' i h = rw i (inr load)
not_waiting w false false r r' i h = rw i (inl refl)

output-Proceeds :
    {d d' : Driver} (w : Worker) → Kept d d' → Answer d d' → Proceeds (stage d w) (stage d' w)
output-Proceeds w kept (message m s j p) = inl (ground (arith, p))
output-Proceeds w kept (job j s q c n) = inl (ground (arith, c, kept.same_state))
output-Proceeds {d} w kept (wake_up r r' e e' ready s q) =
    rw (e, e', kept.same_state, ready)
      (answers_once (is_waiting w) d.proc.is_initialized r.ready true (λ h. refl))

initialize-Proceeds :
    {d d' : Driver} (w : Worker)
    → Ends d d'
    → is_waiting w ≡ false
    → Proceeds (stage d w) (stage d' w)
initialize-Proceeds {d} {d'} w (s, j, l, loaded r) i =
    not_waiting w d.proc.is_initialized d'.proc.is_initialized _ _ i (λ h. r.initialized)
initialize-Proceeds {d} {d'} w (s, j, l, failed t e n c a) i =
    not_waiting w d.proc.is_initialized d'.proc.is_initialized _ _ i (λ h. n ∙ h)

-- A job starts.
execute-Proceeds :
    (d d' : Driver) (w w' : Worker) (leftover : ℤ)
    → Turn leftover d (d', w')
    → is_waiting w ≡ false
    → d.proc.is_initialized ≡ true
    → Proceeds (stage d w) (stage d' w')
unfolding new_response
execute-Proceeds d d' w idle leftover (m, (j, i, c, n), (l, a)) off on =
    rw (off, on, n ∙ on) (inl refl)
execute-Proceeds d d' w (waiting hook results k) leftover (m, (j, i, c, n), (l, p)) off on =
    rw (off, on, p) (inr ask)

-- A job goes on.
reply-Proceeds :
    (d d' : Driver) (w w' : Worker) (leftover : ℤ) (r : ImportResponse)
    → Turn leftover d (d', w')
    → is_waiting w ≡ true
    → d.proc.is_initialized ≡ true
    → d.proc.current_import ≡ stored (some r)
    → r.ready ≡ true
    → Proceeds (stage d w) (stage d' w')
unfolding new_response
reply-Proceeds d d' w idle leftover r (m, (j, i, c, n), (l, a)) waits on e ready =
    rw (waits, e, ready, n ∙ on) (inr finish)
reply-Proceeds d d' w (waiting hook results k) leftover r (m, (j, i, c, n), (l, p)) waits on e
      ready =
    rw (waits, e, ready, p) (inr ask_again)

stop-Proceeds :
    (d : Driver) (p : Proc) (w : Worker)
    → Stopped d.proc p
    → Proceeds (stage d w) (stage (record d { proc = p }) w)
unfolding fail_import
stop-Proceeds d p w (unchanged e s) = inl (ground (arith, s))
stop-Proceeds d p w (failed_import r e s) =
    rw (s, e) (answers_once (is_waiting w) d.proc.is_initialized r.ready true (λ h. refl))

Turn-Works :
    (d d' : Driver) (w' : Worker) (leftover : ℤ)
    → Turn leftover d (d', w')
    → d.proc.is_initialized ≡ true
    → Works d' w'
Turn-Works d d' w' leftover (m, (j, i, c, n), left) on h = n ∙ on

Step-Works :
    {ei : Ei} {narrow : ℕ → ℕ} {n c : ℕ} {s t : Port}
    → Reach ei narrow n s
    → Step ei narrow s c t
    → Works s.driver s.worker
    → Works t.driver t.worker
Step-Works {ei} {s} r (output caller buff o e) on h =
    (output_answers ei caller buff s.driver e).0.same_state ∙ on h
Step-Works {s} r (initialize loader leftover request rest o f q e) on h =
    absurd (ground (arith, (Reach-Inv r).lock, f, h))
Step-Works {narrow} {s} {t} r (execute fill api leftover call rest o f q e) on h =
    Turn-Works (record s.driver { jobs = rest }) t.driver t.worker leftover
      (wasm_execute_function-Turn narrow fill api leftover call _ e) (calls_initialized r q).0 h
Step-Works {narrow} {s} {t} r (reply api leftover hook results k i o w p ready e) on h =
    Turn-Works s.driver t.driver t.worker leftover
      (resume-Turn narrow api leftover hook results k s.driver
        ((Reach-Inv r).lock ∙ ap is_waiting w) e)
      (on (ap is_waiting w)) h
Step-Works {s} r (stop o e) on h = elim (stop_signal-Stopped s.driver.proc e) [
  | unchanged c p ↦ ap (λ (q : Proc). q.is_initialized) p ∙ on h
  | failed_import i c p ↦ ap (λ (q : Proc). q.is_initialized) p ∙ on h
]
Step-Works r (release o f g) on h = on h

Reach-Works :
    {ei : Ei} {narrow : ℕ → ℕ} {n : ℕ} {s : Port} → Reach ei narrow n s → Works s.driver s.worker
unfolding new_port
Reach-Works (start port now memories) = λ h. cc
Reach-Works (later r st e) = Step-Works r st (Reach-Works r)

-- Whatever a port does, it keeps to the protocol: a step from a reachable state leaves the stage of
-- the port as it is or takes it to the next one. The flag
-- `is_initialized` is set before a job first waits in a host call, and is never taken back, although
-- a later module may fail to load; a host call that a job waits in is answered before anything else
-- happens to the job; and after the answer the job waits in its next host call or in none.
pub Step-Proceeds :
    {ei : Ei} {narrow : ℕ → ℕ} {n c : ℕ} {s t : Port}
    → Reach ei narrow n s
    → Step ei narrow s c t
    → Proceeds (stage s.driver s.worker) (stage t.driver t.worker)
Step-Proceeds {ei} {s} r (output caller buff o e) =
    let (kept, answered_by) = output_answers ei caller buff s.driver e in
    output-Proceeds s.worker kept answered_by
Step-Proceeds {s} r (initialize loader leftover request rest o f q e) =
    let popped = record s.driver { jobs = rest } in
    initialize-Proceeds {d = popped} s.worker
      (wasm_initialize_runtime-Ends loader leftover request popped e) (sym (Reach-Inv r).lock ∙ f)
Step-Proceeds {narrow} {s} {t} r (execute fill api leftover call rest o f q e) =
    let popped = record s.driver { jobs = rest } in
    execute-Proceeds popped t.driver s.worker t.worker leftover
      (wasm_execute_function-Turn narrow fill api leftover call popped e)
      (sym (Reach-Inv r).lock ∙ f) (calls_initialized r q).0
Step-Proceeds {narrow} {s} {t} r (reply api leftover hook results k i o w p ready e) =
    reply-Proceeds s.driver t.driver s.worker t.worker leftover i
      (resume-Turn narrow api leftover hook results k s.driver
        ((Reach-Inv r).lock ∙ ap is_waiting w) e)
      (ap is_waiting w) (Reach-Works r (ap is_waiting w)) p ready
Step-Proceeds {s} {t} r (stop o e) =
    stop-Proceeds s.driver t.driver.proc s.worker (stop_signal-Stopped s.driver.proc e)
Step-Proceeds r (release o f g) = inl refl
