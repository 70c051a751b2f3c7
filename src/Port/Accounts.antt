-- ===== src/Port/Accounts.antt =====
-- The messages that a port sends, counted against the commands that arrive at it.
use hyper_beam.Common.{
  ℕ, ◌+◌, ◌≤◌, ◌≡◌, refl, sym, ap, ◌∙◌, true, false, List, [], ◌∷◌, ◌++◌, Option, some, none, Cell,
  junk, stored, arith, length, length-append, if◌then◌else◌, ℤ,
}
use hyper_beam.Core.Runtime.{Memory}
use hyper_beam.Core.Process.{ImportResponse, Job, Proc, Driver}
use hyper_beam.Helpers.Terms.{Ei}
use hyper_beam.Beamr.Output.Answers.{Answer, message, job, wake_up, output_answers}
use hyper_beam.Wasm.Import.{new_response}
use hyper_beam.Wasm.Initialize.Loads.{wasm_initialize_runtime-Ends}
use hyper_beam.Wasm.Execute.{Worker, idle, waiting}
use hyper_beam.Wasm.Execute.Turns.{Turn, wasm_execute_function-Turn, resume-Turn}
use hyper_beam.Port.{
  Phase, serving, stopping, freed, Port, new_port, Takes, Step, output, initialize, execute, reply,
  stop, release, Reach, start, later,
}
use hyper_beam.Port.Invariant.{is_waiting, Inv, Stopped, stop_signal-Stopped, Reach-Inv}

-- 1 if a host call waits that has been answered: its job has a message to send.
abbrev pub woken : Worker → Cell (Option ImportResponse) → ℕ
woken idle c = 0
woken (waiting hook results k) junk = 0
woken (waiting hook results k) (stored none) = 0
woken (waiting hook results k) (stored (some r)) = if r.ready then 1 else 0

-- What the port owes: the messages that it has sent, the jobs, and the answered host call.
abbrev pub owed : Driver → Worker → ℕ
owed d w = length d.sent + length d.jobs + woken w d.proc.current_import

abbrev pub closings : Phase → ℕ
closings serving = 0
closings stopping = 1
closings freed = 1

woken-le : (w : Worker) (c : Cell (Option ImportResponse)) → woken w c ≤ 1
woken-le idle c = omega arith
woken-le (waiting hook results k) junk = omega arith
woken-le (waiting hook results k) (stored none) = omega arith
woken-le (waiting hook results k) (stored (some r)) = ground arith

length-snoc {ℓ} : {A : Type ℓ} (xs : List A) (x : A) → length (xs ++ (x ∷ [])) ≡ length xs + 1
length-snoc xs x = length-append xs (x ∷ [])

length-Takes : {j : Job} {jobs rest : List Job} → Takes j jobs rest → length jobs ≡ length rest + 1
length-Takes {j} {jobs} {rest} t = omega (
  arith,
  ap length t.queue_is,
  ap length t.rest_is,
  length-append {0} t.front (j ∷ t.back),
  length-append {0} t.front t.back,
)

-- A command adds at most one.
Answer-owed : {d d' : Driver} (w : Worker) → Answer d d' → owed d' w ≤ owed d w + 1
Answer-owed {d} {d'} w (message m s j p) =
    let c : woken w d'.proc.current_import ≡ woken w d.proc.current_import =
      ap (λ (q : Proc). woken w q.current_import) p in
    omega (arith, ap length s, ap length j, c, length-snoc {0} d.sent m)
Answer-owed {d} {d'} w (job j s q c n) =
    let e : woken w d'.proc.current_import ≡ woken w d.proc.current_import = ap (woken w) c in
    omega (arith, ap length s, ap length q, e, length-snoc {0} d.jobs j)
Answer-owed {d} {d'} w (wake_up r r' e e' a s q) =
    omega (arith, ap length s, ap length q, woken-le w d'.proc.current_import)

-- A turn sends one message, and leaves no host call answered.
Turn-owed :
    (leftover : ℤ) (d d' : Driver) (w' : Worker)
    → Turn leftover d (d', w')
    → owed d' w' ≡ length d.sent + length d.jobs + 1
unfolding new_response
Turn-owed leftover d d' idle ((m, s), (j, i, c, n), l) =
    omega (arith, ap length s, ap length j, length-snoc {0} d.sent m)
Turn-owed leftover d d' (waiting hook results k) ((m, s), (j, i, c, n), (l, p)) =
    let fresh : woken (waiting hook results k) d'.proc.current_import ≡ 0 =
      ap (woken (waiting hook results k)) p in
    omega (arith, ap length s, ap length j, fresh, length-snoc {0} d.sent m)

Stopped-owed :
    (d : Driver) (p : Proc) (w : Worker)
    → Stopped d.proc p
    → owed (record d { proc = p }) w ≤ owed d w + 1
Stopped-owed d p w s = omega (arith, woken-le w p.current_import)

woken_idle : (w : Worker) (c : Cell (Option ImportResponse)) → is_waiting w ≡ false → woken w c ≡ 0
woken_idle idle c e = refl
woken_idle (waiting hook results k) c e = cc

woken_ready :
    (w : Worker) (c : Cell (Option ImportResponse)) (r : ImportResponse)
    → is_waiting w ≡ true
    → c ≡ stored (some r)
    → r.ready ≡ true
    → woken w c ≡ 1
woken_ready idle c r w e ready = cc
woken_ready (waiting hook results k) c r w e ready = rw (e, ready) refl

-- A step adds no more than the commands that arrive in it, and the stop adds one.
Step-owed :
    {ei : Ei} {narrow : ℕ → ℕ} {s t : Port} {c : ℕ}
    → Step ei narrow s c t
    → Inv s.driver s.worker
    → owed t.driver t.worker + closings s.phase ≤ owed s.driver s.worker + c + closings t.phase
Step-owed {ei} {s} (output caller buff o e) v =
    omega (arith, Answer-owed s.worker (output_answers ei caller buff s.driver e).1)
Step-owed {s} {t} (initialize loader leftover request rest o f q e) v =
    let popped = record s.driver { jobs = rest } in
    let ((m, sent), j, l, r) = wasm_initialize_runtime-Ends loader leftover request popped e in
    omega (
      arith,
      ap length sent,
      ap length j,
      length-snoc {0} s.driver.sent m,
      length-Takes q,
      woken_idle s.worker s.driver.proc.current_import (sym v.lock ∙ f),
      woken_idle s.worker t.driver.proc.current_import (sym v.lock ∙ f),
    )
Step-owed {narrow} {s} {t} (execute fill api leftover call rest o f q e) v =
    let popped = record s.driver { jobs = rest } in
    let turn = wasm_execute_function-Turn narrow fill api leftover call popped e in
    omega (arith, Turn-owed leftover popped t.driver t.worker turn, length-Takes q)
Step-owed {narrow} {s} {t} (reply api leftover hook results k r o w p ready e) v =
    let turn =
      resume-Turn narrow api leftover hook results k s.driver (v.lock ∙ ap is_waiting w) e in
    omega (
      arith,
      Turn-owed leftover s.driver t.driver t.worker turn,
      woken_ready s.worker s.driver.proc.current_import r (ap is_waiting w) p ready,
    )
Step-owed {s} {t} (stop o e) v = omega (
  arith,
  ap closings o,
  Stopped-owed s.driver t.driver.proc s.worker (stop_signal-Stopped s.driver.proc e),
)
Step-owed (release o f g) v = omega (arith, ap closings o)

new_port-owed :
    (port now : ℕ) (memories : List Memory)
    → let s = new_port port now memories in owed s.driver s.worker ≤ closings s.phase
unfolding new_port
new_port-owed port now memories = omega arith

-- At any time a port has sent at most as many messages as commands have arrived, and one more if it
-- has been stopped. Each job that is still queued, and each host call that has been answered but has
-- not gone on, leaves one message less.
pub messages_bounded :
    {ei : Ei} {narrow : ℕ → ℕ} {n : ℕ} {s : Port}
    → Reach ei narrow n s
    → length s.driver.sent + length s.driver.jobs + woken s.worker s.driver.proc.current_import
      ≤ n + closings s.phase
messages_bounded (start port now memories) = omega (arith, new_port-owed port now memories)
messages_bounded (later r st e) = omega (arith, messages_bounded r, Step-owed st (Reach-Inv r))
