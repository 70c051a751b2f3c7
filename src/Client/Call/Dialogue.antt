-- ===== src/Client/Call/Dialogue.antt =====
-- src/hb_beamr.erl: a call as an Erlang program sees it, with the driver left out: a WebAssembly
-- function that runs on memories, and an import function that answers its host calls and threads a
-- state through them.
use hyper_beam.Common.{
  ℕ, ◌<◌, ◌≡◌, true, false, Bytes, List, Option, some, none, Cell, done, length, take, ◌-◌,
}
use hyper_beam.Core.Values.{ValKind, WasmVal}
use hyper_beam.Core.Runtime.{Memory, Instance}
use hyper_beam.Core.Process.{ImportHook, Proc}
use hyper_beam.Helpers.Convert.{Status}
use hyper_beam.Helpers.Convert.Loop.{Numbers, Converted}
use hyper_beam.Helpers.Strings.{c_string, strlen}
use hyper_beam.Wasm.Import.{is_invoke, Reply}
use hyper_beam.Wasm.Indirect.{wasm_execute_indirect_function}
use hyper_beam.Wasm.Execute.{Run, returned, trapped, computes, host_call}
use hyper_beam.Messages.Terms.{text, erl_list}
use hyper_beam.Messages.Denote.{terms_of, Sendable}
use hyper_beam.Client.Session.{Value, is_valid_arg_list, are_decodable, System, Session, value}
use hyper_beam.Client.Worker.Exchange.{Ready}
use hyper_beam.Client.Call.{Imported, answers, ImportFun, CallResult, ok, error}

-- What an import function gets to see of a host call.
abbrev pub imported : ImportHook → List WasmVal → Imported
imported hook args = record {
  module_name = text (take (strlen hook.module_name) hook.module_name);
  func = text (take (strlen hook.field_name) hook.field_name);
  args = erl_list (terms_of args);
  func_sig = text (take (strlen hook.signature - 1) hook.signature);
}

-- What an import function may change of the port: the memories, and which messages have passed.
pub record Served (s s' : Session) (mem : List Memory) : Type 0 where
  pub ready : Ready s'
  pub same_proc : s'.port.driver.proc ≡ s.port.driver.proc
  pub same_jobs : s'.port.driver.jobs ≡ s.port.driver.jobs
  pub same_worker : s'.port.worker ≡ s.port.worker
  pub memories_are : s'.port.driver.memories ≡ mem

-- A host call that is sent to Erlang and can be carried out with so many answers.
pub record Suits (hook : ImportHook) (args results : List WasmVal) (vs : List Value) : Type 0 where
  pub other : is_invoke hook ≡ false
  pub types : List ValKind
  pub typed : hook.stub_func.type.results ≡ some types
  pub args_are : Sendable args
  pub results_are : Numbers results
  pub some_result : 0 < length results
  pub enough : length results ≡ length vs
  pub valid : is_valid_arg_list vs ≡ true
  pub decodable : are_decodable vs ≡ true

module _ (sys : System) {St : Type 0} (import_fun : ImportFun St) (inst : Cell (Option Instance))
    (table : Cell (Option ℕ)) where
  -- With some memories, and whatever else the port holds, the import function returns these answers
  -- and this state, and leaves these memories.
  pub record Serves (st : St) (i : Imported) (mem : List Memory) (vs : List Value) (st' : St)
      (mem' : List Memory) : Type 0 where
    pub serve :
        (s : Session)
        → Ready s
        → s.port.driver.memories ≡ mem
        → s.port.driver.proc.instance_ ≡ inst
        → (s' : Session) × (import_fun st i s ≡ value (answers vs st') s') × Served s s' mem'

  -- From a state and memories, a run comes to a result and memories.
  pub data Dialogue : St → List Memory → Run → CallResult St → List Memory → Type 0 where
    returns :
        (st : St) (mem : List Memory) (rs : List WasmVal)
        → Sendable rs
        → Dialogue st mem (returned rs) (ok (erl_list (terms_of rs)) st) mem
    traps :
        (st : St) (mem : List Memory) (message : Bytes)
        → Dialogue st mem (trapped message) (error (text (take 255 (c_string message))) st) mem
    works :
        (st : St) (mem mem' : List Memory) (f : List Memory → List Memory) (k : List Memory → Run)
        (r : CallResult St)
        → Dialogue st (f mem) (k mem) r mem'
        → Dialogue st mem (computes f k) r mem'
    asks :
        (st st' : St) (mem mem₁ mem' : List Memory) (hook : ImportHook)
        (args results results' : List WasmVal) (k : Reply → Run) (vs : List Value)
        (r : CallResult St)
        → Suits hook args results vs
        → Serves st (imported hook args) mem vs st' mem₁
        → Converted sys.narrow results (sys.codec.terms vs) results'
        → Dialogue st' mem₁ (k (record { trap = none; results = results' })) r mem'
        → Dialogue st mem (host_call hook args results k) r mem'
    invokes :
        (st : St) (mem mem₁ mem' : List Memory) (hook : ImportHook) (args results : List WasmVal)
        (k : Reply → Run) (status : Status) (r : CallResult St)
        → is_invoke hook ≡ true
        → ((p : Proc)
            → p.indirect_func_table ≡ table
            → wasm_execute_indirect_function sys.api p mem args ≡ done (status, mem₁))
        → Dialogue st mem₁ (k (record { trap = none; results = results })) r mem'
        → Dialogue st mem (host_call hook args results k) r mem'
