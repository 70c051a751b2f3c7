-- ===== src/Client/Call/Carries.antt =====
-- src/hb_beamr.erl: what the driver makes of the steps of a dialogue.
use hyper_beam.Common.{ℕ, ◌≡◌, refl, sym, ap, subst, ◌∙◌, true, List, [], Option, none, Cell, done}
use hyper_beam.Core.Values.{WasmVal}
use hyper_beam.Core.Runtime.{Memory, Instance}
use hyper_beam.Core.Process.{ImportHook, Proc, Driver}
use hyper_beam.Helpers.Convert.{Status}
use hyper_beam.Logging.{output_term}
use hyper_beam.Wasm.Import.{is_invoke, Reply}
use hyper_beam.Wasm.Import.Protocol.{settled}
use hyper_beam.Wasm.Indirect.{wasm_execute_indirect_function}
use hyper_beam.Wasm.Indirect.Invoke.{invoke_keeps_results}
use hyper_beam.Wasm.Initialize.{unlock}
use hyper_beam.Wasm.Execute.{
  execute_message, Run, returned, computes, host_call, Worker, idle, advance,
}
use hyper_beam.Wasm.Execute.Runs.{execute_finish-eq}
use hyper_beam.Client.Session.{System}
use hyper_beam.Client.Call.{ImportFun, CallResult}
use hyper_beam.Client.Call.Dialogue.{Dialogue, returns, traps, works, invokes}
use hyper_beam.Client.Call.Turns.{request-eq}

module _ (inst : Cell (Option Instance)) (table : Cell (Option ℕ)) where
  -- What a call needs of the driver while its function runs.
  pub record Fits (d : Driver) (mem : List Memory) : Type 0 where
    pub memories_are : d.memories ≡ mem
    pub instance_is : d.proc.instance_ ≡ inst
    pub table_is : d.proc.indirect_func_table ≡ table
    pub no_jobs : d.jobs ≡ []
    pub on : d.proc.is_initialized ≡ true

module _ {inst : Cell (Option Instance)} {table : Cell (Option ℕ)} where
  pub Fits-memories :
      {d : Driver} {mem : List Memory} (mem' : List Memory)
      → Fits inst table d mem
      → Fits inst table (record d { memories = mem' }) mem'
  Fits-memories mem' f = record {
    memories_are = refl;
    instance_is = f.instance_is;
    table_is = f.table_is;
    no_jobs = f.no_jobs;
    on = f.on;
  }

  -- Messages, the mutex and the pending import are no matter.
  pub Fits-same :
      {d : Driver} {mem : List Memory} (d' : Driver)
      → Fits inst table d mem
      → d'.memories ≡ d.memories
      → d'.proc.instance_ ≡ d.proc.instance_
      → d'.proc.indirect_func_table ≡ d.proc.indirect_func_table
      → d'.jobs ≡ d.jobs
      → d'.proc.is_initialized ≡ d.proc.is_initialized
      → Fits inst table d' mem
  Fits-same d' f m i t j o = record {
    memories_are = m ∙ f.memories_are;
    instance_is = i ∙ f.instance_is;
    table_is = t ∙ f.table_is;
    no_jobs = j ∙ f.no_jobs;
    on = o ∙ f.on;
  }

module _ (sys : System) where
  -- What the driver makes of each form of a run.
  pub returned-eq :
      (rs : List WasmVal) (d : Driver)
      → advance sys.api sys.leftover (returned rs) d
        ≡ done (unlock (settled (output_term (execute_message rs) d)), idle)
  unfolding advance
  returned-eq rs d = rw (execute_finish-eq rs d) refl

  pub computes-eq :
      (g : List Memory → List Memory) (k : List Memory → Run) (d : Driver) {mem : List Memory}
      → d.memories ≡ mem
      → advance sys.api sys.leftover (computes g k) d
        ≡ advance sys.api sys.leftover (k mem) (record d { memories = g mem })
  unfolding advance
  computes-eq g k d e =
      ap (λ (ms : List Memory). advance sys.api sys.leftover (k ms) (record d { memories = g ms }))
        e

  module _ {inst : Cell (Option Instance)} {table : Cell (Option ℕ)} where
    pub invokes-eq :
        (hook : ImportHook) (args results : List WasmVal) (k : Reply → Run) (status : Status)
        (mem mem₁ : List Memory) (d : Driver)
        → Fits inst table d mem
        → is_invoke hook ≡ true
        → ((p : Proc)
            → p.indirect_func_table ≡ table
            → wasm_execute_indirect_function sys.api p mem args ≡ done (status, mem₁))
        → advance sys.api sys.leftover (host_call hook args results k) d
          ≡ advance sys.api sys.leftover
              (k (record { trap = none; results = results }))
              (record d { memories = mem₁ })
    invokes-eq hook args results k status mem mem₁ d f named calls =
        invoke_keeps_results sys.api sys.leftover hook args results k d named (
          subst
            (λ (ms : List Memory).
              wasm_execute_indirect_function sys.api d.proc ms args ≡ done (status, mem₁))
            (sym f.memories_are) (calls d.proc f.table_is))

  module _ {St : Type 0} {import_fun : ImportFun St} {inst : Cell (Option Instance)}
      {table : Cell (Option ℕ)} where
    -- A run of a dialogue can be carried on by the driver.
    pub Dialogue-advances :
        {st : St} {mem mem' : List Memory} {run : Run} {r : CallResult St}
        → Dialogue sys import_fun inst table st mem run r mem'
        → (d : Driver) → Fits inst table d mem
        → (o : Driver × Worker) × (advance sys.api sys.leftover run d ≡ done o)
    unfolding advance
    Dialogue-advances (returns st mem rs numbers) d f = (_, returned-eq rs d)
    Dialogue-advances (traps st mem message) d f = (_, refl)
    Dialogue-advances (works st mem mem' g k r next) d f =
        let (o, e) =
          Dialogue-advances next (record d { memories = g mem }) (Fits-memories (g mem) f) in
        (o, computes-eq g k d f.memories_are ∙ e)
    Dialogue-advances
          (Dialogue.asks st st' mem mem₁ mem' hook args results results' k vs r a serves conv next)
          d f =
        (_, request-eq sys d hook args results k vs a)
    Dialogue-advances (invokes st mem mem₁ mem' hook args results k status r named calls next) d f =
        let (o, e) = Dialogue-advances next (record d { memories = mem₁ }) (Fits-memories mem₁ f) in
        (o, invokes-eq hook args results k status mem mem₁ d f named calls ∙ e)
