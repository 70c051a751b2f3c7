-- ===== src/Client/Call.antt =====
-- src/hb_beamr.erl: `call`, `monitor_call`, `dispatch_response`, `stub` and `start`.
pub mod Dialogue
pub mod Turns
pub mod Carries
pub mod Mail
pub mod Conversation
pub mod Laws
pub mod Failure
pub mod Hears
pub mod Starting
use hyper_beam.Common.{
  ℕ, zero, suc, Bool, true, false, Bytes, List, [], ◌∷◌, Option, none, some, fault, done,
  if◌then◌else◌, ℤ, pos, ◌≡◌, arith,
}
use hyper_beam.Core.Message.{codes}
use hyper_beam.Core.Runtime.{Memory}
use hyper_beam.Messages.Terms.{ErlTerm}
use hyper_beam.Port.{new_port}
use hyper_beam.Client.Session.{
  Value, integer, is_valid_arg_list, Request, System, Session, Flow, value, raised, blocked,
  undefined, unfinished, Action, ◌>>=◌, ◌>>◌, pure, raise, tagged, receive,
}
use hyper_beam.Client.Worker.{wasm_send, stop}
use hyper_beam.Client.Io.{error_reason}

-- What a client waits for during a call.
pub data Event : Type 0 where
  result : ErlTerm → Event
  import : ErlTerm → ErlTerm → ErlTerm → ErlTerm → Event
  failed : ErlTerm → Event

abbrev pub result_or : Option (List ErlTerm) → Option Event → Option Event
result_or (some (x ∷ [])) e = some (result x)
result_or _ e = e

abbrev pub import_or : Option (List ErlTerm) → Option Event → Option Event
import_or (some (m ∷ f ∷ a ∷ s ∷ [])) e = some (import m f a s)
import_or _ e = e

abbrev pub failed_or : Option ErlTerm → Option Event
failed_or (some e) = some (failed e)
failed_or none = none

unfoldable pub event : ErlTerm → Option Event
unfolding tagged error_reason
event t =
    result_or (tagged (codes "execution_result") t)
      (import_or (tagged (codes "import") t) (failed_or (error_reason t)))

-- The map that an import function gets; `instance` and the options are left out.
pub record Imported : Type 0 where
  pub module_name : ErlTerm
  pub func : ErlTerm
  pub args : ErlTerm
  pub func_sig : ErlTerm

-- What an import function returns: `{ok, Response, State}`, where the response may be no list, or
-- something else.
pub data Returned (St : Type 0) : Type 0 where
  answers : List Value → St → Returned St
  no_list : ErlTerm → St → Returned St
  no_match : ErlTerm → Returned St

abbrev pub ImportFun : Type 0 → Type 0
ImportFun St = St → Imported → Action (Returned St)

-- What a call returns: `{ok, Result, State}`, `{error, Error, State}`, the five-tuple of an import
-- function's exception, or `{error, {invalid_args, Args}}`.
pub data CallResult (St : Type 0) : Type 0 where
  ok : ErlTerm → St → CallResult St
  error : ErlTerm → St → CallResult St
  import_error : St → CallResult St
  invalid_args : List Value → CallResult St

-- A function is named, or given by an integer.
pub data FuncRef : Type 0 where
  named : Bytes → FuncRef
  indexed : ℤ → FuncRef

abbrev pub call_request : FuncRef → List Value → Request
call_request (named name) args = Request.call name args
call_request (indexed i) args = Request.indirect_call i args

-- `try` with a `catch` of everything.
abbrev pub caught : {A : Type 0} → Action A → Flow A → Flow A
caught handler (value a s) = value a s
caught handler (raised s) = handler s
caught handler blocked = blocked
caught handler undefined = undefined
caught handler unfinished = unfinished

abbrev pub catch : {A : Type 0} → Action A → Action A → Action A
catch m handler s = caught handler (m s)

pub catch-value :
    {A : Type 0} (m handler : Action A) (s : Session) {s' : Session} {a : A}
    → m s ≡ value a s'
    → catch m handler s ≡ value a s'
catch-value m handler s e = ground (arith, e)

pub catch-raised :
    {A : Type 0} (m handler : Action A) (s : Session) {s' : Session} {x : Flow A}
    → m s ≡ raised s'
    → handler s' ≡ x
    → catch m handler s ≡ x
catch-raised m handler s e h = ground (arith, e, h)

unfoldable pub stub : {St : Type 0} → ImportFun St
stub st imported = pure (answers (integer (pos 0) ∷ []) st)

module _ (sys : System) where
  unfoldable pub dispatch_response : List Value → Action (Unit {0})
  unfolding wasm_send
  dispatch_response terms =
      if is_valid_arg_list terms then wasm_send sys (Request.import_response terms) else raise

  module _ {St : Type 0} (import_fun : ImportFun St) where
    -- What an import function returned is sent, and the call goes on with the new state.
    unfoldable pub after_import :
        (St → Action (CallResult St)) → Returned St → Action (CallResult St)
    unfolding dispatch_response
    after_import go (answers terms st) = dispatch_response terms >> go st
    after_import go (no_list _ _) = raise
    after_import go (no_match _) = raise

    -- The port is stopped, and its error message awaited.
    unfoldable pub import_failed : St → Action (CallResult St)
    unfolding stop receive error_reason
    import_failed st = do stop sys; receive error_reason; pure (import_error st)

    unfoldable pub on_event : (St → Action (CallResult St)) → St → Event → Action (CallResult St)
    unfolding after_import import_failed
    on_event go st (result r) = pure (ok r st)
    on_event go st (failed e) = pure (error e st)
    on_event go st (import m f a s) =
        catch
          (import_fun st (record { module_name = m; func = f; args = a; func_sig = s })
            >>= after_import go)
          (import_failed st)

    -- The fuel bounds the number of messages that are received.
    unfoldable pub monitor_call : ℕ → St → Action (CallResult St)
    unfolding receive event on_event
    monitor_call zero st = λ s. unfinished
    monitor_call (suc fuel) st = receive event >>= on_event (λ st'. monitor_call fuel st') st

    unfoldable pub call : ℕ → FuncRef → List Value → St → Action (CallResult St)
    unfolding monitor_call wasm_send
    call fuel ref args st =
        if is_valid_arg_list args
        then wasm_send sys (call_request ref args) >> monitor_call fuel st
        else pure (invalid_args args)

  -- `call/3`: the stub answers host calls, and what is no `{ok, Result, _}` is no match.
  unfoldable pub only_ok : CallResult (Unit {0}) → Action ErlTerm
  only_ok (ok r st) = pure r
  only_ok _ = raise

  unfoldable pub plain_call : ℕ → FuncRef → List Value → Action ErlTerm
  unfolding call stub only_ok
  plain_call fuel ref args = call stub fuel ref args tt >>= only_ok

-- What `start` waits for: the imports and exports, or an error.
pub data Started : Type 0 where
  ok : ErlTerm → ErlTerm → Started
  error : ErlTerm → Started

abbrev pub started_or : Option (List ErlTerm) → Option ErlTerm → Option Started
started_or (some (i ∷ e ∷ [])) _ = some (Started.ok i e)
started_or _ (some e) = some (Started.error e)
started_or _ none = none

unfoldable pub start_answer : ErlTerm → Option Started
unfolding tagged error_reason
start_answer t = started_or (tagged (codes "execution_result") t) (error_reason t)

module _ (sys : System) where
  unfoldable pub after_start : Started → Action Started
  unfolding stop
  after_start (Started.ok imports exports) = pure (Started.ok imports exports)
  after_start (Started.error e) = stop sys >> pure (Started.error e)

  -- A worker process with a new port, whose listener is the caller.
  unfoldable pub spawned : ℕ → ℕ → List Memory → Session
  spawned port now memories = record {
    port = new_port port now memories;
    alive = true;
    taken = 0;
    inbox = [];
  }

  unfoldable pub start : Bytes → Bytes → Action Started
  unfolding wasm_send receive start_answer after_start
  start binary mode =
      wasm_send sys (Request.init binary mode) >> (receive start_answer >>= after_start)
