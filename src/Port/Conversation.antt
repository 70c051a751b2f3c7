-- ===== src/Port/Conversation.antt =====
-- A whole conversation: a call whose function makes any number of host calls, each of which Erlang
-- answers, and what Erlang gets to see of it.
use hyper_beam.Common.{
  Option, inl, inr, Defined, Defined-value, ℕ, ◌+◌, ◌≡◌, refl, sym, ◌∙◌, subst, true, false, Bytes,
  List, [], ◌∷◌, ◌++◌, some, none, Cell, done, done-injective, ℤ, pos_part, arith,
}
use mathlib.Core.List.{append_assoc, append-nil}
use hyper_beam.Core.Values.{ValKind, WasmVal, EiTerm}
use hyper_beam.Core.Message.{codes, Message}
use hyper_beam.Core.Runtime.{Func, Memory}
use hyper_beam.Core.Process.{ImportHook, Proc, Job, execute_function, Driver}
use hyper_beam.Helpers.Convert.{Status}
use hyper_beam.Helpers.Convert.Loop.{Converted, cells}
use hyper_beam.Helpers.Strings.{strcmp_eq}
use hyper_beam.Helpers.Terms.{Ei}
use hyper_beam.Logging.{error_message, send_error, output_term}
use hyper_beam.Beamr.Entry.{wasm_driver_entry}
use hyper_beam.Beamr.Output.{dispatch, respond}
use hyper_beam.Beamr.Output.Calls.{DecodesCall, called, call-queues}
use hyper_beam.Beamr.Output.Headers.{Sends, output-dispatch}
use hyper_beam.Wasm.Import.{is_invoke, import_message, import_reply, Reply}
use hyper_beam.Wasm.Import.Protocol.{settled, replied, response_taken, reply_goes_on}
use hyper_beam.Wasm.Indirect.{CallApi, wasm_execute_indirect_function}
use hyper_beam.Wasm.Indirect.Invoke.{invoke_keeps_results}
use hyper_beam.Wasm.Initialize.{lock, unlock}
use hyper_beam.Wasm.Execute.{
  fresh_vals, execute_message, execute_trapped, Run, returned, trapped, computes, host_call, Worker,
  idle, waiting, advance, resume,
}
use hyper_beam.Wasm.Execute.Runs.{Callable, requested, call_starts, execute_finish-eq}
use hyper_beam.Messages.Room.{import_request_sends}
use hyper_beam.Port.{Takes, output, execute, reply, Reach, later}
use hyper_beam.Port.Transcript.{
  at, Client, Asked, Answerable, Transcript, returns, traps, works, asks, invokes,
}

-- The job that came last.
last-Takes : (js : List Job) → Takes execute_function (js ++ (execute_function ∷ [])) js
last-Takes js = record { front = js; back = []; queue_is = refl; rest_is = sym (append-nil js) }

module _ {ei : Ei} (narrow : ℕ → ℕ) (client : Client ei) where
  open client use {answer}

  -- Where a run leaves a port in the end: the thread is through, the mutex is free, and the messages
  -- have been sent.
  pub data Ended (api : CallApi) (table : Cell (Option ℕ)) (d : Driver) (run : Run) : Type 0 where
    ended :
        (n : ℕ) (d' : Driver) (ms : List Message)
        → Reach ei narrow n (at (d', idle))
        → d'.proc.locked ≡ false
        → d'.jobs ≡ d.jobs
        → Transcript narrow client api table d.memories run ms d'.memories
        → d'.sent ≡ d.sent ++ ms
        → Ended api table d run

  module _ (api : CallApi) (caller : ℕ) (leftover : ℤ) (table : Cell (Option ℕ)) where
    request-eq :
        (d : Driver) (hook : ImportHook) (args results : List WasmVal) (k : Reply → Run)
        → Asked narrow client hook args results
        → advance api leftover (host_call hook args results k) d
          ≡ done (requested leftover hook args d, waiting hook results k)
    unfolding advance
    request-eq d hook args results k a =
        rw (a.other, import_request_sends leftover hook args results d a.args_are a.some_result)
          refl

    returned-eq :
        (d : Driver) (rs : List WasmVal)
        → advance api leftover (returned rs) d
          ≡ done (unlock (settled (output_term (execute_message rs) d)), idle)
    unfolding advance
    returned-eq d rs = rw (execute_finish-eq rs d) refl

    invoke-eq :
        (d : Driver) (hook : ImportHook) (args results : List WasmVal) (k : Reply → Run)
        → d.proc.indirect_func_table ≡ table
        → is_invoke hook ≡ true
        → ((p : Proc) (mem : List Memory)
            → p.indirect_func_table ≡ table
            → Defined (wasm_execute_indirect_function api p mem args))
        → (mem : List Memory) × (status : Status) × (wasm_execute_indirect_function api d.proc
              d.memories args
            ≡ done (status, mem))
          × (advance api leftover (host_call hook args results k) d
              ≡ advance api leftover
                  (k (record { trap = none; results = results }))
                  (record d { memories = mem }))
    invoke-eq d hook args results k t named defined =
        let ((status, mem), e) =
          Defined-value (wasm_execute_indirect_function api d.proc d.memories args)
            (defined d.proc d.memories t) in
        (mem, status, e, invoke_keeps_results api leftover hook args results k d named e)

    advance_total :
        (run : Run) (d : Driver)
        → d.proc.indirect_func_table ≡ table
        → Answerable narrow client api table run
        → (o : Driver × Worker) × (advance api leftover run d ≡ done o)
    unfolding advance
    advance_total (returned rs) d t a = (_, returned-eq d rs)
    advance_total (trapped text) d t a = (_, refl)
    advance_total (computes f k) d t a =
        advance_total (k d.memories) (record d { memories = f d.memories }) t (a d.memories)
    advance_total (host_call hook args results k) d t (inl (a, next)) =
        (_, request-eq d hook args results k a)
    advance_total (host_call hook args results k) d t (inr (named, defined, next)) =
        let (mem, status, calls, e) = invoke-eq d hook args results k t named defined in
        let (o, total) =
          advance_total (k (record { trap = none; results = results }))
            (record d { memories = mem }) t next in
        (o, e ∙ total)

    -- The client's answer is taken as a command.
    answer_taken :
        (d : Driver) (hook : ImportHook) (args : List WasmVal)
        → wasm_driver_entry.output ei caller
            (client.buff hook args)
            (requested leftover hook args d)
          ≡ done
              (replied (some (cells (answer hook args))) leftover (requested leftover hook args d))
    unfolding dispatch strcmp_eq
    answer_taken d hook args =
        output-dispatch ei caller (client.buff hook args) (codes "import_response") client.index
          (requested leftover hook args d) (client.sends hook args)
        ∙ response_taken ei caller (client.buff hook args) client.index client.end leftover
            (some (cells (answer hook args))) (requested leftover hook args d) refl
            (client.decodes hook args)

    -- What the client's answer makes of the run.
    reply-eq :
        (d : Driver) (hook : ImportHook) (args results : List WasmVal) (k : Reply → Run)
        → pos_part leftover ≡ 0
        → Asked narrow client hook args results
        → (results' : List WasmVal) × Converted narrow results (answer hook args) results'
          × (resume narrow api leftover hook results k (
                replied (some (cells (answer hook args))) leftover (requested leftover hook args d))
              ≡ advance api leftover
                  (k (record { trap = none; results = results' }))
                  (settled (requested leftover hook args d)))
    unfolding resume
    reply-eq d hook args results k zero_length a =
        let (results', goes_on, conv) =
          reply_goes_on narrow hook a.typed leftover results (answer hook args) []
            (requested leftover hook args d) zero_length a.results_are a.enough in
        (
          results',
          conv,
          rw
              (subst
                (λ (cs : List (Cell EiTerm)).
                  import_reply narrow hook results
                    (replied (some cs) leftover (requested leftover hook args d))
                  ≡ done (
                    settled (requested leftover hook args d),
                    record { trap = none; results = results' },
                  ))
                (append-nil (cells (answer hook args))) goes_on)
              refl,
        )

    -- One round: the client's answer arrives, and the thread goes on.
    round-Reach :
        (d : Driver) (hook : ImportHook) (args results results' : List WasmVal) (k : Reply → Run)
        (n : ℕ) {o : Driver × Worker}
        → Reach ei narrow n (at (requested leftover hook args d, waiting hook results k))
        → resume narrow api leftover hook results k
            (replied (some (cells (answer hook args))) leftover (requested leftover hook args d))
          ≡ done o
        → Reach ei narrow (n + 1) (at o)
    unfolding respond
    round-Reach d hook args results results' k n r e =
        later {n = n + 1}
          (later r (output caller (client.buff hook args) refl (answer_taken d hook args)) refl)
          (reply api leftover hook results k _ (λ f. cc) refl refl refl e) (omega arith)

    -- A run that can be answered comes to its end, from whatever state its turn has left.
    run_ends :
        (run : Run) (d : Driver) (n : ℕ) {o : Driver × Worker}
        → pos_part leftover ≡ 0
        → d.proc.indirect_func_table ≡ table
        → Answerable narrow client api table run
        → advance api leftover run d ≡ done o
        → Reach ei narrow n (at o)
        → Ended api table d run
    unfolding advance execute_trapped send_error
    run_ends (returned rs) d n z t a e r =
        ended n _ (execute_message rs ∷ [])
          (subst (λ o. Reach ei narrow n (at o)) (done-injective (sym e ∙ returned-eq d rs)) r) refl
          refl (returns d.memories rs) refl
    run_ends (trapped text) d n z t a e r =
        ended n _ (error_message text ∷ [])
          (subst (λ o. Reach ei narrow n (at o)) (done-injective (sym e)) r) refl refl
          (traps d.memories text) refl
    run_ends (computes f k) d n z t a e r =
        let d₁ = record d { memories = f d.memories } in
        elim (run_ends (k d.memories) d₁ n z t (a d.memories) e r) [
          | ended m d' ms r₁ l j tr s ↦
              ended m d' ms r₁ l j (works d.memories d'.memories f k ms tr) s
        ]
    run_ends (host_call hook args results k) d n z t (inl (a, goes)) e r =
        let r₁ =
          subst (λ o. Reach ei narrow n (at o))
            (done-injective (sym e ∙ request-eq d hook args results k a)) r in
        let (results', conv, goes_on) = reply-eq d hook args results k z a in
        let d₁ = settled (requested leftover hook args d) in
        let next = goes results' conv in
        let (o, total) = advance_total (k (record { trap = none; results = results' })) d₁ t next in
        let r₂ = round-Reach d hook args results results' k n r₁ (goes_on ∙ total) in
        elim (run_ends (k (record { trap = none; results = results' })) d₁ (n + 1) z t next total
          r₂) [
            | ended m d' ms r₃ l j tr s ↦
                ended m d' (import_message hook args ∷ ms) r₃ l j
                  (asks d.memories d'.memories hook args results results' k ms a.other conv tr)
                  (s ∙ append_assoc d.sent (import_message hook args ∷ []) ms)
          ]
    run_ends (host_call hook args results k) d n z t (inr (named, defined, next)) e r =
        let (mem, status, calls, go) = invoke-eq d hook args results k t named defined in
        elim (run_ends (k (record { trap = none; results = results })) (record d { memories = mem })
          n z t next (sym go ∙ e) r) [
            | ended m d' ms r₁ l j tr s ↦
                ended m d' ms r₁ l j
                  (invokes d.memories mem d'.memories hook args results k ms d.proc status named t
                    calls tr)
                  s
          ]

  -- A conversation, as Erlang can bring it about: in a port that has been initialized and has no job
  -- running, a `call` arrives which decodes to the name of an exported function on number kinds and a
  -- term for each parameter; a thread takes the call; and each host call that the function makes can
  -- be carried out and is answered by the client, or is an indirect call that is defined. Then the function is called with the
  -- terms, converted to the kinds of its parameters, and however many host calls it makes, the port
  -- can come to a state in which the job is over, the mutex is free, the queue is as before the
  -- call, and the messages that have been sent since are the transcript of the run: a request for
  -- each host call that is no indirect call, in order, and at the end the results or the trap; and the memories are those that
  -- the run has come to.
  pub call_converses :
      (fill : ℕ → ℕ) (api : CallApi) (call : Func → List WasmVal → List WasmVal → Run) (caller : ℕ)
      (leftover : ℤ) (buff : Bytes) (index n : ℕ) (d : Driver) (name : Bytes) (func : Func)
      (params results : List ValKind) (ts : List EiTerm) (extra : List (Cell EiTerm))
      → Reach ei narrow n (at (d, idle))
      → d.proc.is_initialized ≡ true
      → d.proc.locked ≡ false
      → pos_part leftover ≡ 0
      → Sends ei buff (codes "call") index
      → DecodesCall ei buff index name (some (cells ts ++ extra))
      → Callable d name func params results ts
      → ((args : List WasmVal)
          → Converted narrow (fresh_vals fill 0 params) ts args
          → Answerable narrow client api d.proc.indirect_func_table
              (call func args (fresh_vals fill 0 results)))
      → (m : ℕ) × (d' : Driver) × (args : List WasmVal) × (ms : List Message) × Reach ei narrow m
          (at (d', idle))
        × (d'.proc.locked ≡ false)
        × (d'.jobs ≡ d.jobs)
        × Converted narrow (fresh_vals fill 0 params) ts args
        × Transcript narrow client api d.proc.indirect_func_table d.memories
            (call func args (fresh_vals fill 0 results))
            ms
            d'.memories
        × (d'.sent ≡ d.sent ++ ms)
  unfolding dispatch strcmp_eq
  call_converses fill api call caller leftover buff index n d name func params results ts extra r on
        free z sends decodes callable answerable =
      let args_are = some (cells ts ++ extra) in
      let d₁ = called name args_are d in
      let taken =
        output-dispatch ei caller buff (codes "call") index d sends
        ∙ call-queues ei caller buff index d name args_are on decodes in
      let r₁ = later {n = n} {m = n + 1} r (output caller buff refl taken) refl in
      let d₂ = record d₁ { jobs = d.jobs } in
      let (args, conv, starts) = call_starts narrow fill api leftover callable extra call d.jobs in
      let (o, total) =
        advance_total api caller leftover d.proc.indirect_func_table
          (call func args (fresh_vals fill 0 results)) (lock d₂) refl (answerable args conv) in
      let r₂ =
        later {n = n + 1} {m = n + 1} r₁
          (execute fill api leftover call d.jobs (λ f. cc) free (last-Takes d.jobs)
            (starts ∙ total))
          (omega arith) in
      elim (run_ends api caller leftover d.proc.indirect_func_table
        (call func args (fresh_vals fill 0 results)) (lock d₂) (n + 1) z refl (answerable args conv)
        total r₂) [ ended m d' ms r₃ l j t s ↦ (m, d', args, ms, r₃, l, j, conv, t, s) ]
