-- ===== src/Client/Call/Failure.antt =====
-- src/hb_beamr.erl: calls that go wrong.
use hyper_beam.Common.{
  ℕ, zero, suc, ◌<◌, ◌≡◌, refl, true, false, List, [], ◌∷◌, Option, none, some, stored, done, arith,
  ◌⊎◌, inl, inr, ℤ,
}
use hyper_beam.Core.Message.{codes}
use hyper_beam.Core.Process.{ImportResponse, Proc, Driver}
use hyper_beam.Helpers.Strings.{strcmp_eq, c_string}
use hyper_beam.Logging.{send_error, error_message}
use hyper_beam.Beamr.Lifecycle.{stop_signal, fail_import}
use hyper_beam.Beamr.Entry.{wasm_driver_entry}
use hyper_beam.Beamr.Output.{dispatch}
use hyper_beam.Beamr.Output.Headers.{output-dispatch}
use hyper_beam.Messages.Terms.{ErlTerm, text}
use hyper_beam.Messages.Denote.{error_message-denotes}
use hyper_beam.Port.{stopping}
use hyper_beam.Client.Session.{
  Value, is_valid_arg_list, Request, System, Session, Flow, value, raised, blocked, ◌>>=◌, pure,
  Action, tagged, bytes_eq, list_elements, receive,
}
use hyper_beam.Client.Session.Laws.{
  bind-value, bind-raised, bind-blocked, bind-chain, receive-first, receive-blocks,
}
use hyper_beam.Client.Worker.{wasm_send, stop, stop-eq}
use hyper_beam.Client.Worker.Exchange.{Ready, took, exchange}
use hyper_beam.Client.Io.{error_reason}
use hyper_beam.Client.Call.{
  import, failed, event, Imported, Returned, answers, no_list, no_match, ImportFun, CallResult,
  error, import_error, indexed, dispatch_response, after_import, catch-raised, import_failed,
  on_event, monitor_call, call,
}

-- An answer that `monitor_call` or `dispatch_response` refuses.
abbrev pub Refused : {St : Type 0} → Returned St → Type 0
Refused (answers vs st) = is_valid_arg_list vs ≡ false
Refused (no_list t st) = Unit
Refused (no_match t) = Unit

-- An import function fails: it raises, or what it returns is refused.
abbrev pub Fails : {St : Type 0} → Flow (Returned St) → Session → Type 0
Fails {St} f s = (f ≡ raised s) ⊎ ((r : Returned St) × (f ≡ value r s) × Refused r)

no_pending : (p : Proc) → p.current_import ≡ stored none → stop_signal p ≡ done p
unfolding stop_signal
no_pending p e = simp (e)

one_pending :
    (p : Proc) {r : ImportResponse}
    → p.current_import ≡ stored (some r)
    → stop_signal p ≡ done (record p { current_import = stored (some (fail_import r)) })
unfolding stop_signal
one_pending p e = simp (e)

module _ (sys : System) {St : Type 0} (import_fun : ImportFun St) where
  Refused-raises :
      (go : St → Action (CallResult St)) (r : Returned St) (s : Session)
      → Refused r
      → after_import sys import_fun go r s ≡ raised s
  unfolding after_import dispatch_response
  Refused-raises go (answers vs st) s h = rw h refl
  Refused-raises go (no_list t st) s h = refl
  Refused-raises go (no_match t) s h = refl

  failure_raises :
      (go : St → Action (CallResult St)) (st : St) (i : Imported) (s s' : Session)
      → Fails (import_fun st i s) s'
      → (import_fun st i >>= after_import sys import_fun go) s ≡ raised s'
  failure_raises go st i s s' (inl e) = bind-raised (import_fun st i) _ s e
  failure_raises go st i s s' (inr (r, e, refused)) =
      bind-value (import_fun st i) (after_import sys import_fun go) s e
        (Refused-raises go r s' refused)

  -- The port is closed, and the mailbox is empty.
  stopped_blocks :
      (st : St) (s : Session) (p : Proc)
      → s.alive ≡ true
      → s.inbox ≡ []
      → wasm_driver_entry.stop s.port.driver.proc ≡ done p
      → import_failed sys import_fun st s ≡ blocked
  unfolding import_failed
  stopped_blocks st s p lives no_mail e =
      let s' : Session = record s {
        alive = false;
        port = record s.port { driver = record s.port.driver { proc = p }; phase = stopping };
      } in
      let rest : Action (CallResult St) = receive error_reason >>= λ _. pure (import_error st) in
      bind-value (stop sys) (λ _. rest) s (stop-eq sys s lives e)
        (bind-blocked (receive error_reason) (λ _. pure (import_error st)) s'
          (receive-blocks error_reason s' no_mail))

  failed_blocks :
      (st : St) (s : Session) (pending : Option ImportResponse)
      → s.alive ≡ true
      → s.inbox ≡ []
      → s.port.driver.proc.current_import ≡ stored pending
      → import_failed sys import_fun st s ≡ blocked
  failed_blocks st s none lives no_mail e =
      stopped_blocks st s s.port.driver.proc lives no_mail (no_pending s.port.driver.proc e)
  failed_blocks st s (some r) lives no_mail e =
      stopped_blocks st s _ lives no_mail (one_pending s.port.driver.proc e)

  -- When an import function fails, the call never returns. While a call waits, a host call arrives as
  -- the only message in the mailbox; the import function raises, or returns something other than
  -- `{ok, Response, State}` with a list of numbers; it leaves an empty mailbox and the worker alive;
  -- and the port knows of the pending import or of none. Then the client waits for ever for an error
  -- message, whatever the fuel.
  pub import_error_hangs :
      (fuel : ℕ) (st : St) (z z' : Session) (t m f a sig : ErlTerm)
      (pending : Option ImportResponse)
      → 0 < fuel
      → z.inbox ≡ t ∷ []
      → event t ≡ some (import m f a sig)
      → Fails
          (import_fun st
            (record { module_name = m; func = f; args = a; func_sig = sig })
            (record z { inbox = [] }))
          z'
      → z'.alive ≡ true
      → z'.inbox ≡ []
      → z'.port.driver.proc.current_import ≡ stored pending
      → monitor_call sys import_fun fuel st z ≡ blocked
  unfolding monitor_call on_event
  import_error_hangs zero st z z' t m f a sig pending h mail is_event fails lives no_mail e =
      absurd (omega arith)
  import_error_hangs (suc n) st z z' t m f a sig pending h mail is_event fails lives no_mail e =
      let i : Imported = record { module_name = m; func = f; args = a; func_sig = sig } in
      let go = λ (st' : St). monitor_call sys import_fun n st' in
      bind-value (receive event) (on_event sys import_fun go st) z
        (receive-first event z t [] mail is_event)
        (catch-raised (import_fun st i >>= after_import sys import_fun go)
          (import_failed sys import_fun st) (record z { inbox = [] })
          (failure_raises go st i (record z { inbox = [] }) z' fails)
          (failed_blocks st z' pending lives no_mail e))

  indirect_taken :
      (i : ℤ) (vs : List Value) (d : Driver)
      → wasm_driver_entry.output sys.ei sys.caller
          (sys.codec.term_to_binary (Request.indirect_call i vs))
          d
        ≡ done (send_error (codes "Unknown command") d)
  unfolding dispatch strcmp_eq
  indirect_taken i vs d =
      output-dispatch sys.ei sys.caller _ (codes "indirect_call") _ d
        (sys.codec.sends (Request.indirect_call i vs))

  -- A call by an integer, which `call` sends as `indirect_call`, always comes back with the error
  -- that the command is unknown, and with the state as it was.
  pub indirect_call_unknown :
      (fuel : ℕ) (i : ℤ) (vs : List Value) (st : St) (s : Session)
      → 0 < fuel
      → Ready s
      → is_valid_arg_list vs ≡ true
      → call sys import_fun fuel (indexed i) vs st s
        ≡ value
            (error (text (codes "Unknown command")) st)
            (took (error_message (codes "Unknown command")) s.port.driver s)
  unfolding call monitor_call on_event send_error event error_reason tagged bytes_eq list_elements
      c_string
  indirect_call_unknown zero i vs st s h ready valid = absurd (omega arith)
  indirect_call_unknown (suc n) i vs st s h ready valid =
      let go = λ (st' : St). monitor_call sys import_fun n st' in
      rw valid (
        bind-chain (wasm_send sys (Request.indirect_call i vs)) (receive event)
          (on_event sys import_fun go st) s
          (exchange sys event (Request.indirect_call i vs) s
            (error_message (codes "Unknown command")) _ (failed (text (codes "Unknown command")))
            s.port.driver ready (indirect_taken i vs s.port.driver) refl refl refl
            (error_message-denotes sys.erts (codes "Unknown command")) refl)
          refl)
