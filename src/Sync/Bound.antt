-- ===== src/Sync/Bound.antt =====
-- Schedules of the two threads, and how many steps are left once an answer has come.
use hyper_beam.Common.{Bool, false, ℕ, suc, ◌+◌, ◌≤◌, ◌<◌, true, ◌≡◌, arith}
use hyper_beam.Sync.Defs.{
  Waiter, entering, checking, sleeping, woken, exiting, returned, freed, Signaler, absent, preset,
  calling, setting, signaling, unlocking, reporting, finished, State, Caller, response, stop, Move,
  enter, sleep, relock, leave, exit, free, answer, set_early, lock_signal, set_ready, cond_signal,
  unlock_signal, report, Step, move, spurious, Reach, later,
}

-- Steps that are left for a thread once `ready` is set.
abbrev pub waiter_left : Waiter → ℕ
waiter_left entering = 5
waiter_left checking = 4
waiter_left sleeping = 6
waiter_left woken = 5
waiter_left exiting = 3
waiter_left returned = 1
waiter_left freed = 0

abbrev pub signaler_left : Signaler → ℕ
signaler_left absent = 7
signaler_left preset = 6
signaler_left calling = 5
signaler_left setting = 4
signaler_left signaling = 3
signaler_left unlocking = 2
signaler_left reporting = 1
signaler_left finished = 0

abbrev pub steps_left : State → ℕ
steps_left s = waiter_left s.waiter + signaler_left s.signaler

-- Where the thread that signals has still to do with the response.
abbrev pub is_using : Signaler → Bool
is_using absent = false
is_using finished = false
is_using _ = true

-- The response is gone while the other thread still has to do with it: its next step is undefined.
abbrev pub Dangling : State → Type 0
Dangling s = (s.waiter ≡ freed) × (is_using s.signaler ≡ true)

-- A chain of `n` steps, each of them defined.
pub data Steps (c : Caller) (s : State) : ℕ → State → Type 0 where
  none_yet : Steps c s 0 s
  one_more : {n : ℕ} {t u : State} → Steps c s n t → ¬ Dangling t → Step c t u → Steps c s (suc n) u

Move-steps_left :
    {c : Caller} {s t : State}
    → Move c s t
    → s.ready ≡ true
    → (t.ready ≡ true) × (steps_left t < steps_left s)
Move-steps_left (enter e f) r = ground arith
Move-steps_left (sleep e f) r = ground arith
Move-steps_left (relock e f) r = ground arith
Move-steps_left (leave e f) r = ground arith
Move-steps_left (exit e) r = ground arith
Move-steps_left (free e) r = ground arith
Move-steps_left {c = response} (answer e) r = ground arith
Move-steps_left {c = stop} (answer e) r = ground arith
Move-steps_left (set_early e) r = ground arith
Move-steps_left (lock_signal e f) r = ground arith
Move-steps_left (set_ready e) r = ground arith
Move-steps_left {s} (cond_signal e) r = ground arith
Move-steps_left (unlock_signal e) r = ground arith
Move-steps_left (report e) r = ground arith

Step-steps_left :
    {c : Caller} {s t : State}
    → Step c s t
    → s.ready ≡ true
    → (t.ready ≡ true) × (steps_left t < steps_left s)
Step-steps_left (move m) r = Move-steps_left m r
Step-steps_left (spurious e) r = ground arith

pub Steps-steps_left :
    {c : Caller} {s t : State} {n : ℕ}
    → Steps c s n t
    → s.ready ≡ true
    → (t.ready ≡ true) × (n + steps_left t ≤ steps_left s)
Steps-steps_left none_yet r = (r, omega arith)
Steps-steps_left (one_more ss ok st) r =
    let (r', le) = Steps-steps_left ss r in
    let (r'', lt) = Step-steps_left st r' in (r'', omega arith)

pub Steps-Reach : {c : Caller} {s t : State} {n : ℕ} → Steps c s n t → Reach c s → Reach c t
Steps-Reach none_yet r = r
Steps-Reach (one_more ss ok st) r = later (Steps-Reach ss r) st
