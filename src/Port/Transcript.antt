-- ===== src/Port/Transcript.antt =====
-- What Erlang gets to see of a call, and what it answers.
use hyper_beam.Common.{
  ℕ, Option, Cell, ◌⊎◌, Defined, true, ◌<◌, ◌≡◌, false, Bytes, List, [], ◌∷◌, some, none, done,
  length,
}
use hyper_beam.Core.Values.{ValKind, WasmVal, EiTerm}
use hyper_beam.Core.Message.{codes, Message}
use hyper_beam.Core.Runtime.{Memory}
use hyper_beam.Core.Process.{ImportHook, Proc, Driver}
use hyper_beam.Helpers.Convert.{Status}
use hyper_beam.Helpers.Convert.Loop.{Numbers, Converted, cells}
use hyper_beam.Helpers.Terms.{Ei, decode_list}
use hyper_beam.Logging.{error_message}
use hyper_beam.Beamr.Output.Headers.{Sends}
use hyper_beam.Wasm.Import.{import_message, is_invoke, Reply}
use hyper_beam.Wasm.Indirect.{CallApi, wasm_execute_indirect_function}
use hyper_beam.Wasm.Execute.{execute_message, Run, returned, trapped, computes, host_call, Worker}
use hyper_beam.Port.{serving, Port}

-- A port that serves, in some state.
abbrev pub at : Driver × Worker → Port
at (d, w) = record { driver = d; worker = w; phase = serving; released = [] }

-- What Erlang answers to a host call: terms, in a buffer that holds an `import_response`.
pub record Client (ei : Ei) : Type 0 where
  pub answer : ImportHook → List WasmVal → List EiTerm
  pub buff : ImportHook → List WasmVal → Bytes
  pub index : ℕ
  pub sends :
      (hook : ImportHook) (args : List WasmVal)
      → Sends ei (buff hook args) (codes "import_response") index
  pub end : ℕ
  pub decodes :
      (hook : ImportHook) (args : List WasmVal)
      → decode_list ei (buff hook args) index ≡ done (some (cells (answer hook args)), end)

module _ {ei : Ei} (narrow : ℕ → ℕ) (client : Client ei) where
  open client use {answer}

  -- A host call that is sent to Erlang and can be carried out: to a function that is not named
  -- `invoke...`, with a type, with arguments and results of number kinds, at least one result, and
  -- as many results as the client answers terms.
  pub record Asked (hook : ImportHook) (args results : List WasmVal) : Type 0 where
    pub other : is_invoke hook ≡ false
    pub types : List ValKind
    pub typed : hook.stub_func.type.results ≡ some types
    pub args_are : Numbers args
    pub results_are : Numbers results
    pub some_result : 0 < length results
    pub enough : length results ≡ length (answer hook args)

  -- Every host call that the run can make can be carried out: it is sent to Erlang, or it is an
  -- indirect call that comes to its end with the function table `table`.
  abbrev pub Answerable : CallApi → Cell (Option ℕ) → Run → Type 0
  Answerable api table (returned rs) = Unit
  Answerable api table (trapped text) = Unit
  Answerable api table (computes f k) = (ms : List Memory) → Answerable api table (k ms)
  Answerable api table (host_call hook args results k) =
      (Asked hook args results
        × ((results' : List WasmVal)
            → Converted narrow results (answer hook args) results'
            → Answerable api table (k (record { trap = none; results = results' }))))
      ⊎ ((is_invoke hook ≡ true)
          × ((p : Proc) (mem : List Memory)
              → p.indirect_func_table ≡ table
              → Defined (wasm_execute_indirect_function api p mem args))
          × Answerable api table (k (record { trap = none; results = results })))

  -- The messages that Erlang gets from a run, and what becomes of the memories: the request of each
  -- host call in order, and the results or the trap at the end. Each host call goes on with what the
  -- client answered, converted, an indirect call with the results that it was given and with what
  -- it has made of the memories, and what the code computes on them carries through.
  pub data Transcript (api : CallApi) (table : Cell (Option ℕ))
      : List Memory → Run → List Message → List Memory → Type 0 where
    returns :
        (mem : List Memory) (rs : List WasmVal)
        → Transcript api table mem (returned rs) (execute_message rs ∷ []) mem
    traps :
        (mem : List Memory) (text : Bytes)
        → Transcript api table mem (trapped text) (error_message text ∷ []) mem
    works :
        (mem mem' : List Memory) (f : List Memory → List Memory) (k : List Memory → Run)
        (ms : List Message)
        → Transcript api table (f mem) (k mem) ms mem'
        → Transcript api table mem (computes f k) ms mem'
    asks :
        (mem mem' : List Memory) (hook : ImportHook) (args results results' : List WasmVal)
        (k : Reply → Run) (ms : List Message)
        → is_invoke hook ≡ false
        → Converted narrow results (answer hook args) results'
        → Transcript api table mem (k (record { trap = none; results = results' })) ms mem'
        → Transcript api table mem
            (host_call hook args results k)
            (import_message hook args ∷ ms)
            mem'
    invokes :
        (mem mem₁ mem' : List Memory) (hook : ImportHook) (args results : List WasmVal)
        (k : Reply → Run) (ms : List Message) (p : Proc) (status : Status)
        → is_invoke hook ≡ true
        → p.indirect_func_table ≡ table
        → wasm_execute_indirect_function api p mem args ≡ done (status, mem₁)
        → Transcript api table mem₁ (k (record { trap = none; results = results })) ms mem'
        → Transcript api table mem (host_call hook args results k) ms mem'
