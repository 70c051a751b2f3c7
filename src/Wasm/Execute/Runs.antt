-- ===== src/Wasm/Execute/Runs.antt =====
-- native/hb_beamr/hb_wasm.c: calls from the job to the answer with its results, and once around
-- through Erlang for a host call.
use hyper_beam.Common.{
  ℕ, ◌+◌, ◌<◌, ◌≡◌, refl, true, false, Bytes, List, [], ◌∷◌, ◌++◌, none, some, Cell, stored, done,
  ℤ, pos_part, arith, length,
}
use hyper_beam.Core.Values.{ValKind, WasmVal, EiTerm}
use hyper_beam.Core.Runtime.{Func}
use hyper_beam.Core.Process.{ImportHook, Job, execute_function, Driver}
use hyper_beam.Helpers.Convert.Loop.{is_number, Numbers, Converted, cells, terms_suffice}
use hyper_beam.Helpers.Exports.{get_exported_function}
use hyper_beam.Helpers.Terms.{Ei, decode_list}
use hyper_beam.Logging.{output_term}
use hyper_beam.Beamr.Output.{call_command, import_response_command}
use hyper_beam.Beamr.Output.Calls.{DecodesCall, called, call-queues}
use hyper_beam.Wasm.Import.{import_message, is_invoke, new_response, Reply, clear_import}
use hyper_beam.Wasm.Import.Protocol.{settled, response_answers}
use hyper_beam.Wasm.Indirect.{CallApi}
use hyper_beam.Wasm.Initialize.{lock, unlock}
use hyper_beam.Wasm.Execute.{
  fresh_vals, execute_begin, after_convert, after_lookup, run_begun, execute_message,
  execute_finish, Run, returned, host_call, idle, waiting, advance, wasm_execute_function, resume,
}
use hyper_beam.Messages.Room.{execute_message_fits, import_request_sends}

abbrev pub NumberTypes : List ValKind → Type 0
NumberTypes [] = Unit
NumberTypes (k ∷ ks) = (is_number k ≡ true) × NumberTypes ks

fresh_vals-Numbers :
    (fill : ℕ → ℕ) (i : ℕ) (ks : List ValKind) → NumberTypes ks → Numbers (fresh_vals fill i ks)
unfolding fresh_vals
fresh_vals-Numbers fill i [] n = tt
fresh_vals-Numbers fill i (k ∷ ks) n = (n.0, fresh_vals-Numbers fill (i + 1) ks n.1)

length-fresh_vals :
    (fill : ℕ → ℕ) (i : ℕ) (ks : List ValKind) → length (fresh_vals fill i ks) ≡ length ks
unfolding fresh_vals
length-fresh_vals fill i [] = refl
length-fresh_vals fill i (k ∷ ks) = omega (arith, length-fresh_vals fill (i + 1) ks)

pub execute_finish-eq :
    (rs : List WasmVal) (d : Driver)
    → execute_finish rs d ≡ done (unlock (settled (output_term (execute_message rs) d)))
unfolding execute_finish clear_import
execute_finish-eq rs d = ground (arith, execute_message_fits rs)

-- A call that can be served: the name is that of an exported function, its parameters have number
-- kinds, and there is a term for each of them.
pub record Callable (d : Driver) (name : Bytes) (func : Func) (params results : List ValKind)
    (ts : List EiTerm) : Type 0 where
  pub found : get_exported_function d.proc name ≡ done (some func)
  pub params_are : func.type.params ≡ some params
  pub results_are : func.type.results ≡ some results
  pub numbers : NumberTypes params
  pub enough : length params ≡ length ts

module _ (narrow fill : ℕ → ℕ) (api : CallApi) (leftover : ℤ) {d : Driver} {name : Bytes}
    {func : Func} {params results : List ValKind} {ts : List EiTerm}
    (callable : Callable d name func params results ts) (extra : List (Cell EiTerm)) where
  -- The state that the command has left.
  abbrev queued : Driver
  queued = called name (some (cells ts ++ extra)) d

  -- The job, whatever other jobs are queued by then, calls the exported function, under the mutex,
  -- with the terms of the call converted to the kinds of the parameters.
  pub call_starts :
      (call : Func → List WasmVal → List WasmVal → Run) (js : List Job)
      → (args : List WasmVal) × Converted narrow (fresh_vals fill 0 params) ts args
        × (wasm_execute_function narrow fill api leftover call (record queued { jobs = js })
            ≡ advance api leftover
                (call func args (fresh_vals fill 0 results))
                (lock (record queued { jobs = js })))
  unfolding wasm_execute_function execute_begin after_lookup after_convert run_begun
      get_exported_function
  call_starts call js =
      let (args, converts, conv) =
        terms_suffice narrow (fresh_vals fill 0 params) ts extra
          (fresh_vals-Numbers fill 0 params callable.numbers)
          (omega (arith, length-fresh_vals fill 0 params, callable.enough)) in
      (args, conv, rw (callable.found, callable.params_are, callable.results_are, converts) refl)

  -- A call is served, from the command to the answer, once the module is initialized: the command
  -- decodes the name of an exported function on number kinds, of at most 255 bytes, and a term for
  -- each parameter, and queues one job. If the function makes no host call and does not trap, the job comes to its end:
  -- the function gets the terms, converted to the kinds of its parameters, the one message that is
  -- sent holds the results that it returns, the mutex is free, and no import is pending.
  pub call_served :
      (ei : Ei) (caller : ℕ) (buff : Bytes) (index : ℕ) (body : Func → List WasmVal → List WasmVal)
      → d.proc.is_initialized ≡ true
      → DecodesCall ei buff index name (some (cells ts ++ extra))
      → (d' : Driver) × (args : List WasmVal) × (call_command ei caller buff index d ≡ done d')
        × (d'.jobs ≡ d.jobs ++ (execute_function ∷ []))
        × Converted narrow (fresh_vals fill 0 params) ts args
        × (wasm_execute_function narrow fill api leftover
              (λ f given rs. returned (body f given))
              (record d' { jobs = d.jobs })
            ≡ done (
              unlock (
                  settled (
                    output_term
                      (execute_message (body func args))
                      (lock (record d' { jobs = d.jobs })))),
              idle,
            ))
  unfolding advance
  call_served ei caller buff index body on decodes =
      let (args, conv, eq) = call_starts (λ f given rs. returned (body f given)) d.jobs in
      (
        queued,
        args,
        call-queues ei caller buff index d name (some (cells ts ++ extra)) on decodes,
        refl,
        conv,
        rw (eq, execute_finish-eq (body func args) (lock (record queued { jobs = d.jobs }))) refl,
      )

-- A port whose host call has sent its request.
abbrev pub requested : ℤ → ImportHook → List WasmVal → Driver → Driver
requested leftover hook args d =
    output_term (import_message hook args)
      (record d { proc = record d.proc { current_import = stored (some (new_response leftover)) } })

-- A host call goes once around through Erlang: its request is sent and the thread waits; the
-- import response is taken; and the run goes on, with no trap and with the response's terms
-- converted to the results, in a port in which only the request has been sent. The host function is
-- not named `invoke...`, arguments and results have number kinds, there is a result and a decoded
-- term for each, and the unassigned length of the response is not positive.
pub host_call_round :
    (narrow : ℕ → ℕ) (api : CallApi) (ei : Ei) (caller : ℕ) (buff : Bytes) (index end : ℕ)
    (leftover : ℤ) (hook : ImportHook) (types : List ValKind) (args results : List WasmVal)
    (k : Reply → Run) (ts : List EiTerm) (extra : List (Cell EiTerm)) (d : Driver)
    → hook.stub_func.type.results ≡ some types
    → is_invoke hook ≡ false
    → Numbers args
    → Numbers results
    → 0 < length results
    → length results ≡ length ts
    → pos_part leftover ≡ 0
    → decode_list ei buff index ≡ done (some (cells ts ++ extra), end)
    → (d' d'' : Driver) × (results' : List WasmVal) × (advance api leftover
          (host_call hook args results k)
          d
        ≡ done (d', waiting hook results k))
      × (import_response_command ei caller buff index d' ≡ done d'')
      × (resume narrow api leftover hook results k d''
          ≡ advance api leftover
              (k (record { trap = none; results = results' }))
              (settled (output_term (import_message hook args) d)))
      × Converted narrow results ts results'
unfolding advance resume
host_call_round narrow api ei caller buff index end leftover hook types args results k ts extra d
      typed other na nr some_result enough zero_length decodes =
    let (d'', results', takes, replies, conv) =
      response_answers narrow hook typed ei caller buff index end leftover results ts extra
        (requested leftover hook args d) refl zero_length decodes nr enough in
    (
      requested leftover hook args d,
      d'',
      results',
      rw (other, import_request_sends leftover hook args results d na some_result) refl,
      takes,
      rw replies refl,
      conv,
    )
