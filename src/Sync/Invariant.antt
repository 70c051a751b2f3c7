-- ===== src/Sync/Invariant.antt =====
-- What holds in every state of the two threads: who has the mutex, and who has seen what.
use hyper_beam.Common.{Bool, true, false, ◌&&◌, ◌≡◌, ◌≢◌, arith, if◌then◌else◌}
use hyper_beam.Sync.Defs.{
  Waiter, checking, sleeping, exiting, returned, freed, Signaler, absent, preset, calling, setting,
  signaling, unlocking, reporting, finished, Holder, nobody, by_waiter, by_signaler, State, Caller,
  response, stop, Move, enter, sleep, relock, leave, exit, free, answer, set_early, lock_signal,
  set_ready, cond_signal, unlock_signal, report, Step, move, spurious, Reach, start, later,
}

abbrev pub waiter_holds : Waiter → Bool
waiter_holds checking = true
waiter_holds exiting = true
waiter_holds _ = false

abbrev pub signaler_holds : Signaler → Bool
signaler_holds setting = true
signaler_holds signaling = true
signaler_holds unlocking = true
signaler_holds _ = false

abbrev pub holder : Waiter → Signaler → Holder
holder w g = if waiter_holds w then by_waiter else if signaler_holds g then by_signaler else nobody

-- `ready` has been set: by `drv_signal`, or before it by `wasm_driver_stop`.
abbrev pub is_set : Caller → Signaler → Bool
is_set c absent = false
is_set c preset = false
is_set response calling = false
is_set response setting = false
is_set stop calling = true
is_set stop setting = true
is_set c signaling = true
is_set c unlocking = true
is_set c reporting = true
is_set c finished = true

-- The condition has been signaled; the lock has been given back after that.
abbrev pub signaled : Signaler → Bool
signaled unlocking = true
signaled reporting = true
signaled finished = true
signaled _ = false

abbrev pub released : Signaler → Bool
released reporting = true
released finished = true
released _ = false

-- The loop of `drv_wait` is over.
abbrev pub past_loop : Waiter → Bool
past_loop exiting = true
past_loop returned = true
past_loop freed = true
past_loop _ = false

-- `drv_signal` has done its work by the time the loop is over, if nobody set `ready` before.
abbrev pub Answered : Caller → State → Type 0
Answered response s =
    (past_loop s.waiter ≡ true → released s.signaler ≡ true) × (s.signaler ≢ preset)
Answered stop s = Unit

pub record Inv (c : Caller) (s : State) : Type 0 where
  pub exclusive : (waiter_holds s.waiter && signaler_holds s.signaler) ≡ false
  pub lock : s.lock ≡ holder s.waiter s.signaler
  pub ready : s.ready ≡ is_set c s.signaler
  pub heard : signaled s.signaler ≡ true → s.waiter ≢ sleeping
  pub left : past_loop s.waiter ≡ true → s.ready ≡ true
  pub answered : Answered c s

Move-Inv : {c : Caller} {s t : State} → Move c s t → Inv c s → Inv c t
Move-Inv {c = response} (enter e f) v = ground arith
Move-Inv {c = stop} (enter e f) v = ground arith
Move-Inv {c = response} (sleep e f) v = ground arith
Move-Inv {c = stop} (sleep e f) v = ground arith
Move-Inv {c = response} (relock e f) v = ground arith
Move-Inv {c = stop} (relock e f) v = ground arith
Move-Inv {c = response} (leave e f) v = ground arith
Move-Inv {c = stop} (leave e f) v = ground arith
Move-Inv {c = response} (exit e) v = ground arith
Move-Inv {c = stop} (exit e) v = ground arith
Move-Inv {c = response} (free e) v = ground arith
Move-Inv {c = stop} (free e) v = ground arith
Move-Inv {c = response} (answer e) v = ground arith
Move-Inv {c = stop} (answer e) v = ground arith
Move-Inv {c = response} (set_early e) v = ground arith
Move-Inv {c = stop} (set_early e) v = ground arith
Move-Inv {c = response} (lock_signal e f) v = ground arith
Move-Inv {c = stop} (lock_signal e f) v = ground arith
Move-Inv {c = response} (set_ready e) v = ground arith
Move-Inv {c = stop} (set_ready e) v = ground arith
Move-Inv {c = response} (cond_signal e) v = ground arith
Move-Inv {c = stop} (cond_signal e) v = ground arith
Move-Inv {c = response} (unlock_signal e) v = ground arith
Move-Inv {c = stop} (unlock_signal e) v = ground arith
Move-Inv {c = response} (report e) v = ground arith
Move-Inv {c = stop} (report e) v = ground arith

pub Step-Inv : {c : Caller} {s t : State} → Step c s t → Inv c s → Inv c t
Step-Inv (move m) v = Move-Inv m v
Step-Inv {c = response} (spurious e) v = ground arith
Step-Inv {c = stop} (spurious e) v = ground arith

pub Reach-Inv : {c : Caller} {s : State} → Reach c s → Inv c s
Reach-Inv {c = response} start = ground arith
Reach-Inv {c = stop} start = ground arith
Reach-Inv (later r st) = Step-Inv st (Reach-Inv r)
