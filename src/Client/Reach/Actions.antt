-- ===== src/Client/Reach/Actions.antt =====
-- src/hb_beamr.erl, src/hb_beamr_io.erl: the operations of a client, as steps of the port.
use hyper_beam.Common.{
  ℕ, zero, suc, true, false, Bool, Bytes, List, [], ◌∷◌, Option, some, none, ℤ, pos, ◌+ℤ◌, ◌+◌,
  ◌++◌, length, if◌then◌else◌,
}
use hyper_beam.Core.Message.{codes}
use hyper_beam.Messages.Terms.{ErlTerm, int, binary}
use hyper_beam.Client.Session.{
  Value, is_valid_arg_list, Request, System, Action, ◌>>=◌, pure, raise, list_elements, receive,
}
use hyper_beam.Client.Worker
use hyper_beam.Client.Worker.{wasm_send}
use hyper_beam.Client.Io
use hyper_beam.Client.Io.{
  Answer, ok, error, execution_result, error_reason, read_answer, write_answer, split_zero, chunk,
  join, do_read_string, read_string,
}
use hyper_beam.Client.Call.{
  Event, result, import, failed, event, Imported, Returned, answers, no_list, no_match, ImportFun,
  CallResult, FuncRef, named, call_request, stub, dispatch_response, after_import, import_failed,
  on_event, monitor_call, call, only_ok, plain_call,
}
use hyper_beam.Client.Allocate.{allocated, signed, malloc, with_pointer, write_at, write_string}
use hyper_beam.Client.Image.{image, read_all, serialize, deserialize}
use hyper_beam.Client.Reach.{
  Keeps, Keeps-bind, wasm_send-Keeps, stop-Keeps, receive-Keeps, catch-After, command-Keeps,
}

module _ (sys : System) where
  write-Keeps : (p : ℤ) (b : Bytes) → Keeps sys (Io.write sys p b)
  unfolding Io.write
  write-Keeps p b = command-Keeps sys (Request.write p b) write_answer

  read-Keeps : (p n : ℤ) → Keeps sys (Io.read sys p n)
  unfolding Io.read
  read-Keeps p n = command-Keeps sys (Request.read p n) read_answer

  chunk-Keeps : (a : Answer ErlTerm) → Keeps sys (chunk sys a)
  unfolding chunk
  chunk-Keeps (ok (binary b)) s v = v
  chunk-Keeps _ s v = v

  join-Keeps :
      (part : Bytes × Bool) (rest : Action Bytes) → Keeps sys rest → Keeps sys (join sys part rest)
  join-Keeps (part, true) rest k s v = v
  join-Keeps (part, false) rest k s v =
      Keeps-bind sys rest (λ more. pure (part ++ more)) k (λ _ s v. v) s v

  do_read_string-Keeps : (fuel : ℕ) (p n : ℤ) → Keeps sys (do_read_string sys fuel p n)
  unfolding do_read_string
  do_read_string-Keeps zero p n s v = tt
  do_read_string-Keeps (suc fuel) p n s v =
      Keeps-bind sys (Io.read sys p n) _ (read-Keeps p n)
        (λ a.
          Keeps-bind sys (chunk sys a) _ (chunk-Keeps a)
            λ b. join-Keeps (split_zero b) _ (do_read_string-Keeps fuel (p +ℤ n) n))
        s v

  if-Keeps :
      {A : Type 0} (b : Bool) (m n : Action A)
      → Keeps sys m
      → Keeps sys n
      → Keeps sys (if b then m else n)
  if-Keeps true m n h k = h
  if-Keeps false m n h k = k

  only_ok-Keeps : (r : CallResult (Unit {0})) → Keeps sys (only_ok sys r)
  unfolding only_ok
  only_ok-Keeps (CallResult.ok r st) s v = v
  only_ok-Keeps _ s v = v

  with_pointer-Keeps : (p : ErlTerm) (a : Answer (Unit {0})) → Keeps sys (with_pointer sys p a)
  unfolding with_pointer
  with_pointer-Keeps p (ok u) s v = v
  with_pointer-Keeps p (error e) s v = v

  image-Keeps : (a : Answer ErlTerm) → Keeps sys (image sys a)
  unfolding image
  image-Keeps (ok (binary b)) s v = v
  image-Keeps _ s v = v

  read_all-Keeps : (t : ErlTerm) → Keeps sys (read_all sys t)
  unfolding read_all
  read_all-Keeps (int w) s v =
      Keeps-bind sys (Io.read sys (pos 0) (signed w)) (image sys) (read-Keeps (pos 0) (signed w))
        image-Keeps s v
  read_all-Keeps _ s v = v

  module _ {St : Type 0} (import_fun : ImportFun St)
      (kept : (st : St) (i : Imported) → Keeps sys (import_fun st i)) where
    dispatch-Keeps : (vs : List Value) → Keeps sys (dispatch_response sys vs)
    unfolding dispatch_response
    dispatch-Keeps vs =
        if-Keeps (is_valid_arg_list vs) _ raise (wasm_send-Keeps sys (Request.import_response vs))
          (λ s v. v)

    after_import-Keeps :
        (go : St → Action (CallResult St)) (r : Returned St)
        → ((st : St) → Keeps sys (go st))
        → Keeps sys (after_import sys import_fun go r)
    unfolding after_import
    after_import-Keeps go (answers vs st) k s v =
        Keeps-bind sys (dispatch_response sys vs) (λ _. go st) (dispatch-Keeps vs) (λ _. k st) s v
    after_import-Keeps go (no_list t st) k s v = v
    after_import-Keeps go (no_match t) k s v = v

    import_failed-Keeps : (st : St) → Keeps sys (import_failed sys import_fun st)
    unfolding import_failed
    import_failed-Keeps st =
        Keeps-bind sys (Worker.stop sys) _ (stop-Keeps sys)
          λ _. Keeps-bind sys (receive error_reason) _ (receive-Keeps sys error_reason) λ _ s v. v

    on_event-Keeps :
        (go : St → Action (CallResult St)) (st : St) (e : Event)
        → ((st' : St) → Keeps sys (go st'))
        → Keeps sys (on_event sys import_fun go st e)
    unfolding on_event
    on_event-Keeps go st (result r) k s v = v
    on_event-Keeps go st (failed e) k s v = v
    on_event-Keeps go st (import m f a sig) k s v =
        let i : Imported = record { module_name = m; func = f; args = a; func_sig = sig } in
        catch-After sys ((import_fun st i >>= after_import sys import_fun go) s)
          (import_failed sys import_fun st)
          (Keeps-bind sys (import_fun st i) (after_import sys import_fun go) (kept st i)
            (λ r. after_import-Keeps go r k) s v)
          (import_failed-Keeps st)

    monitor_call-Keeps : (fuel : ℕ) (st : St) → Keeps sys (monitor_call sys import_fun fuel st)
    unfolding monitor_call
    monitor_call-Keeps zero st s v = tt
    monitor_call-Keeps (suc fuel) st s v =
        Keeps-bind sys (receive event) _ (receive-Keeps sys event)
          (λ e.
            on_event-Keeps (λ st'. monitor_call sys import_fun fuel st') st e
              (λ st'. monitor_call-Keeps fuel st'))
          s v

    call-Keeps :
        (fuel : ℕ) (ref : FuncRef) (vs : List Value) (st : St)
        → Keeps sys (call sys import_fun fuel ref vs st)
    unfolding call
    call-Keeps fuel ref vs st =
        if-Keeps (is_valid_arg_list vs) _ (pure (CallResult.invalid_args vs))
          (Keeps-bind sys (wasm_send sys (call_request ref vs))
            (λ _. monitor_call sys import_fun fuel st) (wasm_send-Keeps sys (call_request ref vs))
            (λ _. monitor_call-Keeps fuel st))
          (λ s v. v)

  stub_call-Keeps :
      (fuel : ℕ) (ref : FuncRef) (vs : List Value) → Keeps sys (plain_call sys fuel ref vs)
  unfolding plain_call stub
  stub_call-Keeps fuel ref vs =
      Keeps-bind sys (call sys stub fuel ref vs tt) (only_ok sys)
        (call-Keeps stub (λ st i s v. v) fuel ref vs tt) only_ok-Keeps

  allocated-Keeps : (r : Option (List ErlTerm)) → Keeps sys (allocated r)
  unfolding allocated
  allocated-Keeps (some (p ∷ [])) s v = v
  allocated-Keeps none s v = v
  allocated-Keeps (some []) s v = v
  allocated-Keeps (some (p ∷ q ∷ r)) s v = v

  write_at-Keeps : (b : Bytes) (p : Answer ErlTerm) → Keeps sys (write_at sys b p)
  unfolding write_at
  write_at-Keeps b (ok (int w)) s v =
      Keeps-bind sys (Io.write sys (signed w) b) (with_pointer sys (int w))
        (write-Keeps (signed w) b) (with_pointer-Keeps (int w)) s v
  write_at-Keeps b _ s v = v

  write_string-Keeps : (fuel : ℕ) (b : Bytes) → Keeps sys (write_string sys fuel b)
  unfolding write_string malloc
  write_string-Keeps fuel b =
      Keeps-bind sys (malloc sys fuel (pos (length b + 1))) (write_at sys (b ++ (0 ∷ [])))
        (Keeps-bind sys (plain_call sys fuel (named (codes "malloc")) _) _
          (stub_call-Keeps fuel (named (codes "malloc")) _)
          (λ r. allocated-Keeps (list_elements r)))
        (write_at-Keeps (b ++ (0 ∷ [])))

  serialize-Keeps : Keeps sys (serialize sys)
  unfolding serialize Io.size
  serialize-Keeps =
      Keeps-bind sys (Io.size sys) (read_all sys) (command-Keeps sys Request.size execution_result)
        read_all-Keeps

-- What a client does, by whatever call with an import function that keeps the port sound itself, and
-- by `write_string`, `read_string`, `serialize` and `deserialize` with whatever arguments, leaves the
-- port in a state that the port's steps reach, and in which it serves while the worker lives, if it
-- was in such a state before; this also holds where the client's code raises.
pub client-Keeps :
    (sys : System) {St : Type 0} (import_fun : ImportFun St) (fuel : ℕ) (ref : FuncRef)
    (vs : List Value) (st : St) (bytes : Bytes) (p n : ℤ)
    → ((st : St) (i : Imported) → Keeps sys (import_fun st i))
    → Keeps sys (call sys import_fun fuel ref vs st)
      × Keeps sys (write_string sys fuel bytes)
      × Keeps sys (read_string sys fuel p n)
      × Keeps sys (serialize sys)
      × Keeps sys (deserialize sys bytes)
unfolding read_string deserialize
client-Keeps sys import_fun fuel ref vs st bytes p n kept = (
  call-Keeps sys import_fun kept fuel ref vs st,
  write_string-Keeps sys fuel bytes,
  do_read_string-Keeps sys fuel p n,
  serialize-Keeps sys,
  Keeps-bind sys (Io.write sys (pos 0) bytes) (λ _. pure tt) (write-Keeps sys (pos 0) bytes)
      (λ _ s v. v),
)
