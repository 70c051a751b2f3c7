-- ===== src/Client/Call/Laws.antt =====
-- src/hb_beamr.erl: what `call` returns.
use hyper_beam.Common.{
  ℕ, ◌<◌, ◌≡◌, ◌≢◌, refl, ◌∙◌, true, false, Bytes, List, [], ◌++◌, some, done, pos_part, length,
}
use mathlib.Core.List.{append-nil}
use hyper_beam.Core.Values.{ValKind, WasmVal}
use hyper_beam.Core.Message.{codes}
use hyper_beam.Core.Runtime.{Func, Memory}
use hyper_beam.Core.Process.{Driver}
use hyper_beam.Helpers.Convert.Loop.{Converted, cells}
use hyper_beam.Helpers.Strings.{strcmp_eq}
use hyper_beam.Helpers.Terms.Encodings.{decode_list_lem}
use hyper_beam.Beamr.Entry.{wasm_driver_entry}
use hyper_beam.Beamr.Output.{dispatch, max_atom_len}
use hyper_beam.Beamr.Output.Calls.{DecodesCall, called, call-queues}
use hyper_beam.Beamr.Output.Headers.{output-dispatch}
use hyper_beam.Wasm.Initialize.{lock}
use hyper_beam.Wasm.Execute.{fresh_vals, Worker, idle, wasm_execute_function, advance}
use hyper_beam.Wasm.Execute.Runs.{Callable, call_starts}
use hyper_beam.Port.{Port}
use hyper_beam.Client.Session.{
  Value, are_bytes, is_valid_arg_list, are_decodable, Request, System, Session, value,
}
use hyper_beam.Client.Session.Laws.{bind-value}
use hyper_beam.Client.Worker.{port_command, proceed, run_job, wasm_send}
use hyper_beam.Client.Call.{ImportFun, CallResult, named, call, monitor_call}
use hyper_beam.Client.Call.Carries.{Fits, Dialogue-advances}
use hyper_beam.Client.Call.Conversation.{Idle, Dialogue-Ends}
use hyper_beam.Client.Call.Dialogue.{Dialogue}
use hyper_beam.Client.Call.Turns.{Converted-unique, command_turns}

-- The function and arguments of a call that `hb_beamr` and the driver can carry out: a name of bytes
-- that fits the driver's buffer and is that of an exported function on number kinds, and integers of
-- 32 bits or floats, at least one, as many as the function has parameters.
pub record Calls (sys : System) (d : Driver) (name : Bytes) (vs : List Value) (func : Func)
    (params results : List ValKind) : Type 0 where
  pub name_is_text : are_bytes name ≡ true
  pub name_fits : length name < max_atom_len
  pub some_args : vs ≢ []
  pub valid : is_valid_arg_list vs ≡ true
  pub decodable : are_decodable vs ≡ true
  pub callable : Callable d name func params results (sys.codec.terms vs)

-- What the command leaves.
abbrev asked : System → Bytes → List Value → Driver → Driver
asked sys name vs d = called name (some (cells (sys.codec.terms vs) ++ [])) d

module _ (sys : System) {name : Bytes} {vs : List Value} {func : Func}
    {params results : List ValKind} where
  call_decodes :
      {d : Driver}
      → Calls sys d name vs func params results
      → DecodesCall sys.ei
          (sys.codec.term_to_binary (Request.call name vs))
          (sys.codec.index (Request.call name vs))
          name
          (some (cells (sys.codec.terms vs) ++ []))
  call_decodes c =
      let named = sys.codec.name_called name vs c.name_is_text in
      let listed = sys.codec.args_called name vs c.name_is_text c.some_args c.decodable in
      record {
        name_is = rw named refl;
        name_fits = c.name_fits;
        end = sys.codec.end (Request.call name vs);
        args_are =
            rw (named, append-nil (cells (sys.codec.terms vs)))
              (decode_list_lem sys.ei (sys.codec.term_to_binary (Request.call name vs)) listed);
      }

  call_taken :
      (d : Driver)
      → Calls sys d name vs func params results
      → d.proc.is_initialized ≡ true
      → wasm_driver_entry.output sys.ei sys.caller
          (sys.codec.term_to_binary (Request.call name vs))
          d
        ≡ done (asked sys name vs d)
  unfolding dispatch strcmp_eq
  call_taken d c on =
      output-dispatch sys.ei sys.caller _ (codes "call") _ d
        (sys.codec.sends (Request.call name vs))
      ∙ call-queues sys.ei sys.caller _ _ d name (some (cells (sys.codec.terms vs) ++ [])) on
          (call_decodes c)

  -- The thread's first turn of a call.
  call-command :
      (p : Port) (args : List WasmVal) {d' : Driver} {w' : Worker}
      → Calls sys p.driver name vs func params results
      → p.driver.proc.is_initialized ≡ true
      → p.driver.proc.locked ≡ false
      → p.driver.jobs ≡ []
      → p.worker ≡ idle
      → Converted sys.narrow (fresh_vals sys.fill 0 params) (sys.codec.terms vs) args
      → advance sys.api sys.leftover
          (sys.run func args (fresh_vals sys.fill 0 results))
          (lock (record (asked sys name vs p.driver) { jobs = [] }))
        ≡ done (d', w')
      → port_command sys (Request.call name vs) p ≡ done (record p { driver = d'; worker = w' })
  unfolding port_command proceed run_job wasm_execute_function
  call-command p args c on free no_jobs at_rest conv e =
      let (args', conv', starts) =
        call_starts sys.narrow sys.fill sys.api sys.leftover c.callable [] sys.run [] in
      let same = Converted-unique sys.narrow _ (sys.codec.terms vs) args' args conv' conv in
      rw (call_taken p.driver c on, at_rest, free, no_jobs) (rw starts (rw same (rw e refl)))

-- `call` from end to end. At an initialized port that nobody uses, a call is made of an exported
-- function on number kinds, by its name of at most 255 bytes and with a number for each parameter, of
-- which there is one at least. All integers, of the call and of the answers, are of 32 bits. The dialogue of the function, run on these numbers converted, with the
-- import function, on the port's memories, comes to a result: each host call with arguments of
-- the integer kinds and finite doubles and results of number kinds, and at least one result, is answered by the import function with a number
-- for each result, whatever the port has sent before; indirect calls are defined; the results are
-- of the integer kinds and finite doubles; and the unassigned length in an import response is not positive. Then with any fuel
-- above some bound the call returns exactly this result, `ok` with the results and the last state or
-- `error` with the text of the trap, and leaves a port that nobody uses and that another call can be
-- made at, with the memories that the dialogue comes to.
pub call_answers :
    (sys : System) {St : Type 0} (import_fun : ImportFun St) (name : Bytes) (vs : List Value)
    (func : Func) (params results : List ValKind) (args : List WasmVal) (s : Session) (st : St)
    (mem mem' : List Memory) (r : CallResult St)
    → pos_part sys.leftover ≡ 0
    → Idle sys import_fun s.port.driver.proc.instance_ s.port.driver.proc.indirect_func_table s mem
    → Calls sys s.port.driver name vs func params results
    → Converted sys.narrow (fresh_vals sys.fill 0 params) (sys.codec.terms vs) args
    → Dialogue sys import_fun s.port.driver.proc.instance_ s.port.driver.proc.indirect_func_table st
        mem
        (sys.run func args (fresh_vals sys.fill 0 results))
        r
        mem'
    → (bound : ℕ) × (s' : Session) × ((fuel : ℕ)
        → bound < fuel
        → call sys import_fun fuel (named name) vs st s ≡ value r s')
      × Idle sys import_fun s.port.driver.proc.instance_ s.port.driver.proc.indirect_func_table s'
          mem'
unfolding call
call_answers sys import_fun name vs func params results args s st mem mem' r l i c conv dialogue =
    let d₂ = lock (record (asked sys name vs s.port.driver) { jobs = [] }) in
    let f = i.fits in
    let f₂ : Fits s.port.driver.proc.instance_ s.port.driver.proc.indirect_func_table d₂ mem =
      record {
        memories_are = f.memories_are;
        instance_is = refl;
        table_is = refl;
        no_jobs = refl;
        on = f.on;
      } in
    let (o, e) = Dialogue-advances sys dialogue d₂ f₂ in
    let (z, sent, turned) =
      command_turns sys (Request.call name vs) s d₂ o.0 o.1 i.ready.lives i.ready.in_step
        i.ready.no_mail (call-command sys s.port args c f.on i.free f.no_jobs i.at_rest conv e) in
    let ends = Dialogue-Ends sys import_fun _ _ l dialogue z d₂ o.0 o.1 f₂ e turned in
    (
      ends.fuel,
      ends.last,
      λ n h. rw c.valid (
          bind-value (wasm_send sys (Request.call name vs)) (λ _. monitor_call sys import_fun n st)
            s sent (ends.comes n h)),
      ends.idle_again,
    )
