-- ===== src/Wasm/Execute/Turns.antt =====
-- The turns of a job that runs a function: from its start, or from the reply to a host call, up to
-- the next host call or its end.
use hyper_beam.Common.{
  ℕ, ◌≡◌, refl, true, false, Bytes, List, [], ◌∷◌, ◌++◌, Option, none, some, stored, is_stored,
  done, ◌>>=◌, fetch, ℤ, Ensures, Ensures-bind, Ensures-if, ensures_done, Ensures-bind_use,
  Ensures-mono, pos, pos_part, ◌∙◌, length, Bool-cases, inl, inr, leb,
}
use hyper_beam.Core.Values.{ValKind, WasmVal}
use hyper_beam.Core.Message.{Message}
use hyper_beam.Core.Runtime.{Func}
use hyper_beam.Core.Process.{ImportResponse, ImportHook, Driver}
use hyper_beam.Helpers.Convert.{Status, success, failure, erl_terms_to_wasm_vals}
use hyper_beam.Helpers.Exports.{deref, get_exported_function}
use hyper_beam.Logging.{send_error}
use hyper_beam.Wasm.Import.{
  import_message, import_room, is_invoke, new_response, import_request, set_kinds, Reply,
  after_terms, after_error, import_reply, clear_import,
}
use hyper_beam.Wasm.Indirect.{CallApi, wasm_execute_indirect_function}
use hyper_beam.Wasm.Initialize.{lock}
use hyper_beam.Wasm.Execute.{
  fresh_vals, Begun, refused, calling, execute_begin, after_convert, after_lookup, run_begun,
  execute_room, execute_message, execute_finish, execute_trapped, Run, returned, trapped, computes,
  host_call, Worker, idle, waiting, advance, wasm_execute_function, resume,
}

-- What a turn leaves alone.
abbrev pub Same : Driver → Driver → Type 0
Same d d' =
    (d'.jobs ≡ d.jobs)
    × (d'.proc.instance_ ≡ d.proc.instance_)
    × (d'.proc.module_ ≡ d.proc.module_)
    × (d'.proc.is_initialized ≡ d.proc.is_initialized)

Same-trans : (d d' d'' : Driver) → Same d d' → Same d' d'' → Same d d''
Same-trans d d' d'' (j, i, m, n) (j', i', m', n') = (j' ∙ j, i' ∙ i, m' ∙ m, n' ∙ n)

-- A pending import that was assigned stays so.
abbrev pub StaysAssigned : Driver → Driver → Type 0
StaysAssigned d d' =
    is_stored d.proc.current_import ≡ true → is_stored d'.proc.current_import ≡ true

-- Where a turn leaves a port: the thread is through and has given the mutex back, or it keeps the
-- mutex and a fresh import response is pending.
abbrev pub Left : ℤ → Driver → Driver → Worker → Type 0
Left leftover d d' idle = (d'.proc.locked ≡ false) × StaysAssigned d d'
Left leftover d d' (waiting hook results k) =
    (d'.proc.locked ≡ true) × (d'.proc.current_import ≡ stored (some (new_response leftover)))

-- A turn sends one message, queues nothing and leaves the port's code alone.
abbrev pub Turn : ℤ → Driver → Driver × Worker → Type 0
Turn leftover d (d', w) =
    ((m : Message) × (d'.sent ≡ d.sent ++ (m ∷ []))) × Same d d' × Left leftover d d' w

-- A first part that sends nothing belongs to the turn.
Turn-lift :
    (leftover : ℤ) (d d₁ : Driver) (o : Driver × Worker)
    → d₁.sent ≡ d.sent
    → Same d d₁
    → StaysAssigned d d₁
    → Turn leftover d₁ o
    → Turn leftover d o
Turn-lift leftover d d₁ (d', idle) s same assigned ((m, sent), same', (l, assigned')) =
    ((m, rw (← s) sent), Same-trans d d₁ d' same same', (l, λ h. assigned' (assigned h)))
Turn-lift leftover d d₁ (d', waiting hook results k) s same assigned ((m, sent), same', left) =
    ((m, rw (← s) sent), Same-trans d d₁ d' same same', left)

module _ (leftover : ℤ) where
  finish-Turn :
      (results : List WasmVal) (d : Driver)
      → Ensures (Turn leftover d) (execute_finish results d >>= λ d'. done (d', idle))
  unfolding execute_finish clear_import
  finish-Turn results d =
      elim (Bool-cases (leb (length (execute_message results)) (execute_room (length results)))) [
        | inl fits ↦ rw fits ((_, refl), (refl, refl, refl, refl), (refl, λ h. refl))
        | inr over ↦ rw over tt
      ]

  request-Turn :
      (hook : ImportHook) (args results : List WasmVal) (k : Reply → Run) (d : Driver)
      → d.proc.locked ≡ true
      → Ensures
          (Turn leftover d)
          (import_request leftover hook args results d >>= λ d'. done (d', waiting hook results k))
  unfolding import_request
  request-Turn hook args results k d l =
      elim (Bool-cases
        (leb (length (import_message hook args)) (import_room (length args) (length results)))) [
          | inl fits ↦ rw fits ((_, refl), (refl, refl, refl, refl), (l, refl))
          | inr over ↦ rw over tt
        ]

  advance-Turn :
      (api : CallApi) (r : Run) (d : Driver)
      → d.proc.locked ≡ true
      → Ensures (Turn leftover d) (advance api leftover r d)
  unfolding advance execute_trapped send_error
  advance-Turn api (returned results) d l = finish-Turn results d
  advance-Turn api (trapped text) d l = ((_, refl), (refl, refl, refl, refl), (refl, λ h. h))
  advance-Turn api (computes f k) d l =
      let d₁ = record d { memories = f d.memories } in
      Ensures-mono (Turn leftover d₁) (Turn leftover d) (advance api leftover (k d.memories) d₁)
        (λ o. Turn-lift leftover d d₁ o refl (refl, refl, refl, refl) (λ h. h))
        (advance-Turn api (k d.memories) d₁ l)
  advance-Turn api (host_call hook args results k) d l =
      Ensures-if (Turn leftover d) (is_invoke hook) _ _
        (Ensures-bind (Turn leftover d) (wasm_execute_indirect_function api d.proc d.memories args)
          _
          λ (status, memories).
            let d₁ = record d { memories = memories } in
            Ensures-mono (Turn leftover d₁) (Turn leftover d)
              (advance api leftover (k (record { trap = none; results = results })) d₁)
              (λ o. Turn-lift leftover d d₁ o refl (refl, refl, refl, refl) (λ h. h))
              (advance-Turn api (k (record { trap = none; results = results })) d₁ l))
        (request-Turn hook args results k d l)

-- A job that is refused at its start has taken a whole turn.
abbrev pub Start : Driver → Begun → Type 0
Start d (refused d') = Turn (pos 0) d (d', idle)
Start d (calling func args results) = Unit

after_convert-Start :
    (fill : ℕ → ℕ) (func : Func) (results : List ValKind) (d : Driver)
    (converted : List WasmVal × Status)
    → Start d (after_convert fill func results d converted)
unfolding after_convert send_error
after_convert-Start fill func results d (args, failure) =
    ((_, refl), (refl, refl, refl, refl), (refl, λ h. h))
after_convert-Start fill func results d (args, success) = tt

after_lookup-Start :
    (narrow fill : ℕ → ℕ) (name : Bytes) (d : Driver) (found : Option Func)
    → Ensures (Start d) (after_lookup narrow fill name d found)
unfolding after_lookup send_error
after_lookup-Start narrow fill name d none = ((_, refl), (refl, refl, refl, refl), (refl, λ h. h))
after_lookup-Start narrow fill name d (some func) =
    Ensures-bind (Start d) (deref func.type.params) _ λ params.
      Ensures-bind (Start d) (deref func.type.results) _ λ results.
        Ensures-bind (Start d) (fetch d.proc.current_args) _ λ terms.
          Ensures-bind (Start d) (erl_terms_to_wasm_vals narrow (fresh_vals fill 0 params) terms) _
            (after_convert-Start fill func results d)

execute_begin-Start :
    (narrow fill : ℕ → ℕ) (d : Driver) → Ensures (Start d) (execute_begin narrow fill d)
unfolding execute_begin
execute_begin-Start narrow fill d =
    Ensures-bind (Start d) (fetch d.proc.current_function) _ λ buffer.
      Ensures-bind (Start d) (fetch buffer) _ λ name.
        Ensures-bind (Start d) (get_exported_function d.proc name) _
          (after_lookup-Start narrow fill name d)

run_begun-Turn :
    (api : CallApi) (leftover : ℤ) (call : Func → List WasmVal → List WasmVal → Run) (d : Driver)
    (b : Begun)
    → d.proc.locked ≡ true
    → Start d b
    → Ensures (Turn leftover d) (run_begun api leftover call d b)
unfolding run_begun
run_begun-Turn api leftover call d (refused d') l s = s
run_begun-Turn api leftover call d (calling func args results) l s =
    advance-Turn leftover api (call func args results) d l

-- Whatever the called function does, the first turn of its job sends exactly one message (the
-- results, an error, or the request of a host call), queues nothing, and leaves the module, the
-- instance and the flag `is_initialized` as they were. The job either is over and has
-- given the mutex `is_running` back, or keeps it while a fresh import response is pending.
pub wasm_execute_function-Turn :
    (narrow fill : ℕ → ℕ) (api : CallApi) (leftover : ℤ)
    (call : Func → List WasmVal → List WasmVal → Run) (d : Driver) {o : Driver × Worker}
    → wasm_execute_function narrow fill api leftover call d ≡ done o
    → Turn leftover d o
unfolding wasm_execute_function
wasm_execute_function-Turn narrow fill api leftover call d h =
    ensures_done (Turn leftover d) _
      (Ensures-bind_use (Turn leftover d) (execute_begin narrow fill (lock d)) _
        (execute_begin-Start narrow fill (lock d))
        (λ b s. run_begun-Turn api leftover call (lock d) b refl s))
      h

-- What a reply to a host call leaves alone.
abbrev pub Replied : Driver → Driver × Reply → Type 0
Replied d (d', reply) =
    (d'.sent ≡ d.sent) × Same d d' × StaysAssigned d d' × (d'.proc.locked ≡ d.proc.locked)

after_terms-Replied :
    (d : Driver) (converted : List WasmVal × Status) → Replied d (after_terms d converted)
unfolding after_terms clear_import
after_terms-Replied d (vals, failure) = (refl, (refl, refl, refl, refl), λ h. h, refl)
after_terms-Replied d (vals, success) = (refl, (refl, refl, refl, refl), λ h. refl, refl)

after_error-Replied :
    (narrow : ℕ → ℕ) (hook : ImportHook) (results : List WasmVal) (d : Driver) (r : ImportResponse)
    (error : Option Bytes)
    → Ensures (Replied d) (after_error narrow hook results d r error)
unfolding after_error clear_import
after_error-Replied narrow hook results d r (some text) =
    (refl, (refl, refl, refl, refl), λ h. refl, refl)
after_error-Replied narrow hook results d r none =
    Ensures-bind (Replied d) (deref hook.stub_func.type.results) _ λ types.
      Ensures-bind (Replied d) (set_kinds (pos_part r.result_length) types results) _ λ vals.
        Ensures-bind (Replied d) (fetch r.result_terms) _ λ terms.
          Ensures-bind (Replied d) (erl_terms_to_wasm_vals narrow vals terms) _
            (after_terms-Replied d)

import_reply-Replied :
    (narrow : ℕ → ℕ) (hook : ImportHook) (results : List WasmVal) (d : Driver)
    → Ensures (Replied d) (import_reply narrow hook results d)
unfolding import_reply
import_reply-Replied narrow hook results d =
    Ensures-bind (Replied d) (fetch d.proc.current_import) _ λ pending.
      Ensures-bind (Replied d) (deref pending) _ λ r.
        Ensures-bind (Replied d) (fetch r.error_message) _
          (after_error-Replied narrow hook results d r)

-- A later turn, from the reply to a host call on, does the same for a job that has the mutex: one
-- message, no new job, and then the mutex is given back or a fresh response is pending.
pub resume-Turn :
    (narrow : ℕ → ℕ) (api : CallApi) (leftover : ℤ) (hook : ImportHook) (results : List WasmVal)
    (k : Reply → Run) (d : Driver) {o : Driver × Worker}
    → d.proc.locked ≡ true
    → resume narrow api leftover hook results k d ≡ done o
    → Turn leftover d o
unfolding resume
resume-Turn narrow api leftover hook results k d l h =
    ensures_done (Turn leftover d) _
      (Ensures-bind_use (Turn leftover d) (import_reply narrow hook results d) _
        (import_reply-Replied narrow hook results d)
        (λ (d', reply) same.
          Ensures-mono (Turn leftover d') (Turn leftover d) (advance api leftover (k reply) d')
            (λ o. Turn-lift leftover d d' o same.0 same.1 same.2)
            (advance-Turn leftover api (k reply) d' (same.3 ∙ l))))
      h
