-- ===== src/Sync/Progress.antt =====
-- No wake-up is lost: once an answer has come, `drv_wait` returns under every schedule.
use hyper_beam.Common.{
  Bool-cases, false, subst, sym, ap, ◌∙◌, ℕ, ◌≤◌, true, ◌≡◌, ◌≢◌, refl, ◌⊎◌, inl, inr, arith,
}
use hyper_beam.Sync.Defs.{
  Waiter, entering, checking, sleeping, woken, exiting, returned, freed, Signaler, absent, preset,
  calling, setting, signaling, unlocking, reporting, finished, nobody, State, Caller, response,
  Move, enter, sleep, relock, leave, exit, free, set_early, lock_signal, set_ready, cond_signal,
  unlock_signal, report, Reach,
}
use hyper_beam.Sync.Bound.{steps_left, Dangling, Steps, Steps-steps_left, Steps-Reach}
use hyper_beam.Sync.Invariant.{waiter_holds, signaler_holds, is_set, Inv, Reach-Inv}

-- Both threads are through.
abbrev pub Through : State → Type 0
Through s = (s.waiter ≡ freed) × (s.signaler ≡ finished)

-- The waiting thread sleeps, and no answer has come.
abbrev pub Unanswered : State → Type 0
Unanswered s = (s.waiter ≡ sleeping) × (s.signaler ≡ absent)

-- A thread can go on by a defined step of its own code. The arrival of an answer is none.
pub record GoesOn (c : Caller) (s : State) : Type 0 where
  pub next : State
  pub goes : Move c s next
  pub own : s.signaler ≡ absent → next.signaler ≡ absent
  pub defined : ¬ Dangling s

module _ {c : Caller} {s : State} (v : Inv c s) where
  -- A step of the waiting thread, which it can make while the response exists.
  by_waiter_code :
      (t : State) → Move c s t → t.signaler ≡ s.signaler → s.waiter ≢ freed → GoesOn c s
  by_waiter_code t m same there = record {
    next = t;
    goes = m;
    own = λ a. same ∙ a;
    defined = λ d. there d.0;
  }

  by_signaler_code :
      (g : Signaler) (t : State)
      → s.signaler ≡ g
      → g ≢ absent
      → Move c s t
      → s.waiter ≢ freed
      → GoesOn c s
  by_signaler_code g t e ne m there = record {
    next = t;
    goes = m;
    own = λ a. absurd (ne (sym e ∙ a));
    defined = λ d. there d.0;
  }

  -- The thread that signals can go on wherever the other does not have the lock.
  signaler-GoesOn :
      (g : Signaler)
      → s.signaler ≡ g
      → waiter_holds s.waiter ≡ false
      → s.waiter ≢ freed
      → ((g ≡ finished) ⊎ (g ≡ absent)) ⊎ GoesOn c s
  signaler-GoesOn absent e f there = inl (inr refl)
  signaler-GoesOn preset e f there = inr (by_signaler_code _ _ e (λ a. cc) (set_early e) there)
  signaler-GoesOn calling e f there =
      inr (by_signaler_code _ _ e (λ a. cc) (lock_signal e (ground arith)) there)
  signaler-GoesOn setting e f there = inr (by_signaler_code _ _ e (λ a. cc) (set_ready e) there)
  signaler-GoesOn signaling e f there = inr (by_signaler_code _ _ e (λ a. cc) (cond_signal e) there)
  signaler-GoesOn unlocking e f there =
      inr (by_signaler_code _ _ e (λ a. cc) (unlock_signal e) there)
  signaler-GoesOn reporting e f there = inr (by_signaler_code _ _ e (λ a. cc) (report e) there)
  signaler-GoesOn finished e f there = inl (inl refl)

  -- Where the waiting thread has no lock, it is free or the other thread has it.
  lock_free : waiter_holds s.waiter ≡ false → (s.lock ≡ nobody) ⊎ (signaler_holds s.signaler ≡ true)
  lock_free f = elim (Bool-cases (signaler_holds s.signaler)) [
    | inl held ↦ inr held
    | inr not_held ↦ inl (rw (v.lock, f, not_held))
  ]

  -- A step of the waiting thread that takes the lock, or one of the thread that has it.
  lock-GoesOn :
      waiter_holds s.waiter ≡ false → s.waiter ≢ freed → (s.lock ≡ nobody → GoesOn c s) → GoesOn c s
  lock-GoesOn f there take_lock = elim (lock_free f) [
    | inl l ↦ take_lock l
    | inr held ↦ elim (signaler-GoesOn s.signaler refl f there) [
      | inl (inl e) ↦ absurd (subst (λ g. signaler_holds g ≡ true → ⊥) (sym e) (λ h. cc) held)
      | inl (inr e) ↦ absurd (subst (λ g. signaler_holds g ≡ true → ⊥) (sym e) (λ h. cc) held)
      | inr m ↦ m
    ]
  ]

  -- Once the response is gone, the other thread has finished or will touch it.
  freed-ends : (g : Signaler) → s.signaler ≡ g → s.waiter ≡ freed → Through s ⊎ Dangling s
  freed-ends absent e w =
      absurd (subst (λ b. b ≡ true → ⊥) (sym (v.ready ∙ ap (is_set c) e)) (λ h. cc) (v.left (rw w)))
  freed-ends finished e w = inl (w, e)
  freed-ends preset e w = inr (w, rw e)
  freed-ends calling e w = inr (w, rw e)
  freed-ends setting e w = inr (w, rw e)
  freed-ends signaling e w = inr (w, rw e)
  freed-ends unlocking e w = inr (w, rw e)
  freed-ends reporting e w = inr (w, rw e)

  waiter-GoesOn :
      (w : Waiter) → s.waiter ≡ w → (Through s ⊎ Dangling s) ⊎ (Unanswered s ⊎ GoesOn c s)
  waiter-GoesOn entering e =
      inr (inr (lock-GoesOn (rw e) (λ a. cc) (λ l. by_waiter_code _ (enter e l) refl (λ a. cc))))
  waiter-GoesOn checking e = elim (Bool-cases s.ready) [
    | inl r ↦ inr (inr (by_waiter_code _ (leave e r) refl (λ a. cc)))
    | inr r ↦ inr (inr (by_waiter_code _ (sleep e r) refl (λ a. cc)))
  ]
  waiter-GoesOn sleeping e = elim (signaler-GoesOn s.signaler refl (rw e) (λ a. cc)) [
    | inl (inl f) ↦ absurd (v.heard (rw f) e)
    | inl (inr f) ↦ inr (inl (e, f))
    | inr m ↦ inr (inr m)
  ]
  waiter-GoesOn woken e =
      inr (inr (lock-GoesOn (rw e) (λ a. cc) (λ l. by_waiter_code _ (relock e l) refl (λ a. cc))))
  waiter-GoesOn exiting e = inr (inr (by_waiter_code _ (exit e) refl (λ a. cc)))
  waiter-GoesOn returned e = inr (inr (by_waiter_code _ (free e) refl (λ a. cc)))
  waiter-GoesOn freed e = inl (freed-ends s.signaler refl e)

  few_left : s.ready ≡ true → steps_left s ≤ 11
  few_left r = ground arith

  -- Where an answer has come, some signaler is there.
  answer_came : s.ready ≡ true → ¬ Unanswered s
  answer_came r u =
      absurd (subst (λ b. b ≡ true → ⊥) (sym (v.ready ∙ ap (is_set c) u.1)) (λ h. cc) r)

-- When an import response has woken the wait, only the reads for debug messages can come too late.
Dangling-reporting : {s : State} → Inv response s → Dangling s → s.signaler ≡ reporting
Dangling-reporting v d = ground (arith, v.answered, d.0, d.1)

-- No deadlock. In every reachable state either the waiting thread has freed the response, and the
-- other has finished or, which is undefined, has still to do with the response; or the waiting thread
-- sleeps and no answer has come; or some thread can go on by a defined step of its own code, neither
-- the arrival of an answer nor a wake-up without a signal being one.
pub no_deadlock :
    {c : Caller} {s : State} → Reach c s → (Through s ⊎ Dangling s) ⊎ (Unanswered s ⊎ GoesOn c s)
no_deadlock {s} r = waiter-GoesOn (Reach-Inv r) s.waiter refl

-- What a schedule comes to after an answer: both threads are through, the response is gone too early
-- for the other thread, which for an import response has only the reads for its debug messages
-- left, or some thread can go on.
abbrev pub Progresses : Caller → State → Type 0
Progresses c s = (Through s ⊎ (Dangling s × (c ≡ response → s.signaler ≡ reporting))) ⊎ GoesOn c s

Reach-Progresses : {c : Caller} {s : State} → Reach c s → s.ready ≡ true → Progresses c s
Reach-Progresses {c} {s} r e = elim (no_deadlock r) [
  | inl (inl t) ↦ inl (inl t)
  | inl (inr d) ↦ inl (inr (d, λ a. Dangling-reporting (subst (λ b. Inv b s) a (Reach-Inv r)) d))
  | inr (inl u) ↦ absurd (answer_came (Reach-Inv r) e u)
  | inr (inr g) ↦ inr g
]

-- From a reachable state in which `ready` is set, no schedule has more than 11 defined steps, wake-ups
-- without a signal included. After any of them either both threads are through, so that the wait
-- has returned; or the wait has returned and the response is gone while the other thread has still to
-- do with it, which is undefined and for an import response concerns the reads for the debug messages
-- only; or some thread can go on by a defined step of its own code.
pub wait_ends :
    {c : Caller} {s t : State} {n : ℕ}
    → Reach c s
    → s.ready ≡ true
    → Steps c s n t
    → (n ≤ 11) × Progresses c t
wait_ends r e ss = (
  omega (arith, (Steps-steps_left ss e).1, few_left (Reach-Inv r) e),
  Reach-Progresses (Steps-Reach ss r) (Steps-steps_left ss e).0,
)
