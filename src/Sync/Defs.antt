-- ===== src/Sync/Defs.antt =====
-- native/hb_beamr/hb_driver.c: `drv_wait` in a job's thread and `drv_signal` in the driver's, one
-- shared access at a time, and what the two callers do around them.
use hyper_beam.Common.{Bool, true, false, ◌≡◌}

-- The thread of `wasm_handle_import` from the call of `drv_wait` on.
pub data Waiter : Type 0 where
  entering : Waiter  -- before `drv_lock`
  checking : Waiter  -- at the loop's test, with the lock
  sleeping : Waiter  -- in `erl_drv_cond_wait`, without the lock
  woken : Waiter  -- about to take the lock again, still in `erl_drv_cond_wait`
  exiting : Waiter  -- before `drv_unlock`
  returned : Waiter  -- `drv_wait` has returned
  freed : Waiter  -- the mutex, the condition and the response are gone

-- The thread of `wasm_driver_output` or `wasm_driver_stop`.
pub data Signaler : Type 0 where
  absent : Signaler  -- no answer yet
  preset : Signaler  -- `wasm_driver_stop`, before it sets `ready` without the lock
  calling : Signaler  -- in `drv_signal`, before `drv_lock`
  setting : Signaler  -- before `*ready = 1`, with the lock
  signaling : Signaler  -- before `erl_drv_cond_signal`, with the lock
  unlocking : Signaler  -- before `drv_unlock`
  reporting : Signaler  -- behind it, before the reads for the debug messages
  finished : Signaler

pub data Holder : Type 0 where
  nobody by_waiter by_signaler : Holder

-- `ready` and the mutex `response_ready` of an `ImportResponse`, and the two threads.
pub record State : Type 0 where
  pub ready : Bool
  pub lock : Holder
  pub waiter : Waiter
  pub signaler : Signaler

-- Who answers: an import response from Erlang, or the stop of the port.
pub data Caller : Type 0 where
  response stop : Caller

-- Where a call of the driver's thread begins.
abbrev pub first : Caller → Signaler
first response = calling
first stop = preset

-- `erl_drv_cond_signal` wakes the thread that sleeps, if it does.
abbrev pub wake : Waiter → Waiter
wake sleeping = woken
wake entering = entering
wake checking = checking
wake woken = woken
wake exiting = exiting
wake returned = returned
wake freed = freed

-- One step of the code of one thread, or, as `answer`, the arrival of an answer. Behind `free` the
-- other thread's steps touch the response that is gone, which C leaves undefined; Sync/Bound tells
-- these states apart as `Dangling`.
pub data Move (c : Caller) (s : State) : State → Type 0 where
  enter :
      s.waiter ≡ entering
      → s.lock ≡ nobody
      → Move c s (record s { waiter = checking; lock = by_waiter })
  sleep :
      s.waiter ≡ checking
      → s.ready ≡ false
      → Move c s (record s { waiter = sleeping; lock = nobody })
  relock :
      s.waiter ≡ woken
      → s.lock ≡ nobody
      → Move c s (record s { waiter = checking; lock = by_waiter })
  leave : s.waiter ≡ checking → s.ready ≡ true → Move c s (record s { waiter = exiting })
  exit : s.waiter ≡ exiting → Move c s (record s { waiter = returned; lock = nobody })
  free : s.waiter ≡ returned → Move c s (record s { waiter = freed })
  answer : s.signaler ≡ absent → Move c s (record s { signaler = first c })
  set_early : s.signaler ≡ preset → Move c s (record s { ready = true; signaler = calling })
  lock_signal :
      s.signaler ≡ calling
      → s.lock ≡ nobody
      → Move c s (record s { signaler = setting; lock = by_signaler })
  set_ready : s.signaler ≡ setting → Move c s (record s { ready = true; signaler = signaling })
  cond_signal :
      s.signaler ≡ signaling → Move c s (record s { signaler = unlocking; waiter = wake s.waiter })
  unlock_signal :
      s.signaler ≡ unlocking → Move c s (record s { signaler = reporting; lock = nobody })
  report : s.signaler ≡ reporting → Move c s (record s { signaler = finished })

-- What may happen: a move of the code, or a wake-up with no signal, which POSIX allows.
pub data Step (c : Caller) (s : State) : State → Type 0 where
  move : {t : State} → Move c s t → Step c s t
  spurious : s.waiter ≡ sleeping → Step c s (record s { waiter = woken })

-- The message to Erlang is on its way, and `drv_wait` is called.
abbrev pub init : State
init = record { ready = false; lock = nobody; waiter = entering; signaler = absent }

pub data Reach (c : Caller) : State → Type 0 where
  start : Reach c init
  later : {s t : State} → Reach c s → Step c s t → Reach c t
