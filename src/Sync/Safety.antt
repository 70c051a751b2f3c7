-- ===== src/Sync/Safety.antt =====
-- What the two threads may rely on when `drv_wait` returns.
use hyper_beam.Common.{true, false, ◌&&◌, ◌≡◌}
use hyper_beam.Sync.Defs.{State, Caller, response, Reach}
use hyper_beam.Sync.Invariant.{waiter_holds, signaler_holds, holder, past_loop, released, Reach-Inv}

-- In every reachable state at most one of the two threads is inside a section which it locked, and
-- the mutex is held by that thread, or by nobody if there is none.
pub mutual_exclusion :
    {c : Caller} {s : State}
    → Reach c s
    → ((waiter_holds s.waiter && signaler_holds s.signaler) ≡ false)
      × (s.lock ≡ holder s.waiter s.signaler)
mutual_exclusion r = let v = Reach-Inv r in (v.exclusive, v.lock)

-- When the loop of `drv_wait` is over, `ready` is set, whoever set it.
pub wait-ready : {c : Caller} {s : State} → Reach c s → past_loop s.waiter ≡ true → s.ready ≡ true
wait-ready r p = (Reach-Inv r).left p

-- With an import response, when the loop of `drv_wait` is over `drv_signal` has signaled the
-- condition and given the mutex back: the waiting thread may destroy both.
pub response-released :
    {s : State} → Reach response s → past_loop s.waiter ≡ true → released s.signaler ≡ true
response-released r p = (Reach-Inv r).answered.0 p
