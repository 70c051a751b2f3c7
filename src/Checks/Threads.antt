-- ===== src/Checks/Threads.antt =====
-- Runs of the two threads around an import response.
use hyper_beam.Common.{◌≤◌, true, false, ◌&&◌, ◌≡◌, refl, ◌⊎◌}
use hyper_beam.Sync.Defs.{
  checking, sleeping, woken, exiting, freed, absent, calling, unlocking, reporting, nobody,
  by_waiter, by_signaler, State, response, stop, enter, sleep, relock, leave, exit, free, answer,
  set_early, lock_signal, set_ready, cond_signal, unlock_signal, move, Reach, start, later,
}
use hyper_beam.Sync.Handoff.{Handoff, Follows, Step-Follows}
use hyper_beam.Sync.Invariant.{waiter_holds, signaler_holds, holder}
use hyper_beam.Sync.Bound.{none_yet, one_more, Dangling}
use hyper_beam.Sync.Progress.{Through, Unanswered, GoesOn, Progresses, no_deadlock, wait_ends}
use hyper_beam.Sync.Safety.{mutual_exclusion}

abbrev asleep : State
asleep = record { ready = false; lock = nobody; waiter = sleeping; signaler = absent }

asleep-Reach : Reach response asleep
asleep-Reach = later (later start (move (enter refl refl))) (move (sleep refl refl))

-- The answer has come while the other thread slept, and it has been woken.
abbrev answered : State
answered = record { ready = true; lock = by_signaler; waiter = woken; signaler = unlocking }

answered-Reach : Reach response answered
answered-Reach =
    later
      (later (later (later asleep-Reach (move (answer refl))) (move (lock_signal refl refl)))
        (move (set_ready refl)))
      (move (cond_signal refl))

-- The woken thread has left the loop.
abbrev left_loop : State
left_loop = record { ready = true; lock = by_waiter; waiter = exiting; signaler = reporting }

left_loop-Reach : Reach response left_loop
left_loop-Reach =
    later (later (later answered-Reach (move (unlock_signal refl))) (move (relock refl refl)))
      (move (leave refl refl))

wait_ends_example : (3 ≤ 11) × Progresses response left_loop
wait_ends_example = wait_ends answered-Reach refl (
    one_more
      (one_more (one_more none_yet (λ d. cc) (move (unlock_signal refl))) (λ d. cc)
        (move (relock refl refl)))
      (λ d. cc) (move (leave refl refl)))

no_deadlock_example :
    (Through answered ⊎ Dangling answered) ⊎ (Unanswered answered ⊎ GoesOn response answered)
no_deadlock_example = no_deadlock answered-Reach

mutual_exclusion_example :
    ((waiter_holds answered.waiter && signaler_holds answered.signaler) ≡ false)
    × (answered.lock ≡ holder answered.waiter answered.signaler)
mutual_exclusion_example = mutual_exclusion answered-Reach

-- With the stop of a port the response may be gone before `drv_signal` has begun.
stop_race : Reach stop (record { ready = true; lock = nobody; waiter = freed; signaler = calling })
stop_race =
    later
      (later
        (later
          (later (later (later start (move (answer refl))) (move (set_early refl)))
            (move (enter refl refl)))
          (move (leave refl refl)))
        (move (exit refl)))
      (move (free refl))

-- With an import response it may be gone while `drv_signal` still reads it for its messages.
report_race :
    Reach response (record { ready = true; lock = nobody; waiter = freed; signaler = reporting })
report_race = later (later left_loop-Reach (move (exit refl))) (move (free refl))

-- The woken thread has the mutex again.
abbrev relocked : State
relocked = record { ready = true; lock = by_waiter; waiter = checking; signaler = reporting }

relocked-Reach : Reach response relocked
relocked-Reach = later (later answered-Reach (move (unlock_signal refl))) (move (relock refl refl))

Step-Follows_example : Follows Handoff.answered Handoff.taken
Step-Follows_example = Step-Follows relocked-Reach (move (leave refl refl))
