-- ===== src/Sync/Handoff.antt =====
-- native/hb_beamr/hb_driver.c: the wait for a response with the mutex and the condition left out.
use hyper_beam.Common.{Bool, true, false, ◌≡◌, refl, ◌⊎◌, inl, inr, arith, if◌then◌else◌}
use hyper_beam.Sync.Defs.{
  State, Caller, Move, enter, sleep, relock, leave, exit, free, answer, set_early, lock_signal,
  set_ready, cond_signal, unlock_signal, report, Step, move, spurious, Reach,
}
use hyper_beam.Sync.Invariant.{past_loop, Inv, Reach-Inv}

-- A host call asks; its answer is there; it goes on with the answer.
pub data Handoff : Type 0 where
  asked answered taken : Handoff

pub data HandoffStep : Handoff → Handoff → Type 0 where
  give : HandoffStep asked answered
  take : HandoffStep answered taken

-- What a state of the two threads stands for.
abbrev pub view : State → Handoff
view s = if past_loop s.waiter then taken else if s.ready then answered else asked

-- Nothing changes, or the next thing happens.
abbrev pub Follows : Handoff → Handoff → Type 0
Follows a b = (b ≡ a) ⊎ HandoffStep a b

given :
    (r p : Bool)
    → Follows (if p then taken else if r then answered else asked) (if p then taken else answered)
given true true = inl refl
given true false = inl refl
given false true = inl refl
given false false = inr give

same_view :
    (s t : State)
    → t.ready ≡ s.ready
    → past_loop t.waiter ≡ past_loop s.waiter
    → Follows (view s) (view t)
same_view s t r p = inl (ground (arith, r, p))

Move-Follows : {c : Caller} {s t : State} → Inv c s → Move c s t → Follows (view s) (view t)
Move-Follows {s} {t} v (enter e f) = same_view s t refl (ground (arith, e))
Move-Follows {s} {t} v (sleep e f) = same_view s t refl (ground (arith, e))
Move-Follows {s} {t} v (relock e f) = same_view s t refl (ground (arith, e))
Move-Follows {s} v (leave e f) = rw (e, f) (inr take)
Move-Follows {s} {t} v (exit e) = same_view s t refl (ground (arith, e))
Move-Follows {s} {t} v (free e) = same_view s t refl (ground (arith, e))
Move-Follows v (answer e) = inl refl
Move-Follows {s} v (set_early e) = given s.ready (past_loop s.waiter)
Move-Follows v (lock_signal e f) = inl refl
Move-Follows {s} v (set_ready e) = given s.ready (past_loop s.waiter)
Move-Follows {s} {t} v (cond_signal e) = same_view s t refl (ground arith)
Move-Follows v (unlock_signal e) = inl refl
Move-Follows v (report e) = inl refl

-- The protocol of the mutex, the condition and `ready` implements the handoff: whatever step is made
-- from a reachable state, wake-ups without a signal included, either nothing changes for the host
-- call, or its answer is given, or the answer that was given is taken.
pub Step-Follows : {c : Caller} {s t : State} → Reach c s → Step c s t → Follows (view s) (view t)
Step-Follows r (move m) = Move-Follows (Reach-Inv r) m
Step-Follows {s} {t} r (spurious e) = same_view s t refl (ground (arith, e))
