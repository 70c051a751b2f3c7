-- ===== src/Checks/System.antt =====
-- A port as a whole: from its start over the initialization and a call to the answers.
use hyper_beam.Common.{
  inl, ℕ, ◌+◌, ◌≤◌, ◌≡◌, refl, false, List, [], ◌∷◌, ◌++◌, none, some, stored, length, pos, arith,
  ◌==◌, if◌then◌else◌,
}
use hyper_beam.Core.Values.{ValKind, WasmVal}
use hyper_beam.Core.Message.{codes, Message}
use hyper_beam.Core.Runtime.{Func}
use hyper_beam.Core.Process.{LoadWasmReq, execute_function, Driver}
use hyper_beam.Core.Objects.{remove}
use hyper_beam.Helpers.Convert.{erl_term_to_wasm_val}
use hyper_beam.Helpers.Convert.Loop.{Converted}
use hyper_beam.Helpers.Exports.{find_function, get_exported_function}
use hyper_beam.Helpers.Terms.{Ei, erl_list_ext, decode_list}
use hyper_beam.Beamr.Entry.{wasm_driver_entry}
use hyper_beam.Beamr.Lifecycle.{wasm_driver_start, stop_objects}
use hyper_beam.Beamr.Output.{
  wasm_driver_output, init_command, call_command, import_response_command, respond,
}
use hyper_beam.Beamr.Output.Calls.{DecodesCall, called}
use hyper_beam.Beamr.Output.Headers.{Sends}
use hyper_beam.Wasm.Import.{is_invoke, import_request, new_response, Reply}
use hyper_beam.Wasm.Initialize.{wasm_initialize_runtime}
use hyper_beam.Wasm.Execute.{
  fresh_vals, Run, returned, trapped, computes, host_call, Worker, idle, wasm_execute_function,
}
use hyper_beam.Wasm.Execute.Runs.{Callable}
use hyper_beam.Port.{freed, Port, new_port, Takes, output, initialize, execute, Reach, start, later}
use hyper_beam.Port.Invariant.{Inv, Reach-Inv}
use hyper_beam.Port.Accounts.{woken, messages_bounded}
use hyper_beam.Port.Hazards.{stop_keeps_jobs}
use hyper_beam.Port.Protocol.{asked, answered, Proceeds, Step-Proceeds}
use hyper_beam.Port.Transcript.{Client, Answerable, Transcript, at}
use hyper_beam.Port.Conversation.{call_converses}
use hyper_beam.Checks.Data.{five, add, page, driver, example_ei}
use hyper_beam.Checks.Loads.{loader, leftover}
use hyper_beam.Checks.Ports.{truncate, value_or, two_fives, hook, one_result}
use hyper_beam.Checks.Runs.{api}

-- Decoders for which a buffer is the text of its command: a call comes with two numbers, a response
-- with one.
abbrev pub speaking : Ei
speaking = record (example_ei []) {
  decode_atom = λ b i. (some b, 3);
  decode_string = λ b i. (some (codes "add"), 4);
  decode_list_header = λ b i. (some (if length b == 4 then 2 else 1), i);
  get_type = λ b i. some (erl_list_ext, length b);
}

abbrev pub started : Port
started = new_port 1 3 (page ∷ [])

abbrev loading : Driver
loading = value_or (wasm_driver_entry.output speaking 2 (codes "init") started.driver) driver

abbrev wanted : LoadWasmReq
wanted = record { binary = stored (0 ∷ 97 ∷ []); size = 4; mode = stored (codes "init") }

abbrev loaded_port : Driver
loaded_port =
    value_or (wasm_initialize_runtime loader leftover wanted (record loading { jobs = [] })) driver

loaded-Reach : Reach speaking truncate 1 (at (loaded_port, idle))
unfolding new_port wasm_driver_output init_command wasm_initialize_runtime wasm_driver_start
loaded-Reach =
    later (later (start 1 3 (page ∷ [])) (output 2 (codes "init") refl refl) refl)
      (initialize loader leftover wanted [] (λ f. cc) refl
        (record { front = []; back = []; queue_is = refl; rest_is = refl }) refl)
      refl

call-Sends : Sends speaking (codes "call") (codes "call") 3
call-Sends = record { version = 131; behind_version = 1; version_is = refl; command_is = refl }

call-DecodesCall : DecodesCall speaking (codes "call") 3 (codes "add") two_fives
unfolding decode_list
call-DecodesCall = record { name_is = refl; name_fits = omega arith; end = 4; args_are = refl }

-- A client that answers five to every host call.
abbrev client : Client speaking
unfolding decode_list
client = record {
  answer = λ h args. five ∷ [];
  buff = λ h args. codes "import_response";
  index = 3;
  sends =
      λ h args. record { version = 131; behind_version = 1; version_is = refl; command_is = refl };
  end = 3;
  decodes = λ h args. refl;
}

loaded-Callable :
    Callable loaded_port
      (codes "add")
      add
      (ValKind.i32 ∷ ValKind.i64 ∷ [])
      (ValKind.i64 ∷ [])
      (five ∷ five ∷ [])
unfolding new_port wasm_driver_output init_command wasm_initialize_runtime wasm_driver_start
    find_function get_exported_function
loaded-Callable = record {
  found = refl;
  params_are = refl;
  results_are = refl;
  numbers = (refl, (refl, tt));
  enough = refl;
}

-- A body that grows the memories by one, asks for a number, and returns it or traps.
abbrev pub goes_on : Reply → Run
goes_on r = elim r.trap [ none ↦ returned r.results | some text ↦ trapped text ]

abbrev pub asks_once : Func → List WasmVal → List WasmVal → Run
asks_once f args results =
    computes (λ ms. page ∷ ms) (λ ms. host_call hook one_result results goes_on)

asks_once-Answerable :
    Answerable truncate client api loaded_port.proc.indirect_func_table
      (asks_once add [] (fresh_vals truncate 0 (ValKind.i64 ∷ [])))
unfolding is_invoke fresh_vals client
asks_once-Answerable = λ ms. inl (
  record {
    other = refl;
    types = ValKind.i64 ∷ [];
    typed = refl;
    args_are = (refl, tt);
    results_are = (refl, tt);
    some_result = omega arith;
    enough = refl;
  },
  λ rs c. tt,
)

call_converses_example :
    (m : ℕ) × (d' : Driver) × (args : List WasmVal) × (ms : List Message) × Reach speaking truncate
      m
      (at (d', idle))
    × (d'.proc.locked ≡ false)
    × (d'.jobs ≡ [])
    × Converted truncate
        (fresh_vals truncate 0 (ValKind.i32 ∷ ValKind.i64 ∷ []))
        (five ∷ five ∷ [])
        args
    × Transcript truncate client api loaded_port.proc.indirect_func_table loaded_port.memories
        (asks_once add args (fresh_vals truncate 0 (ValKind.i64 ∷ [])))
        ms
        d'.memories
    × (d'.sent ≡ loaded_port.sent ++ ms)
unfolding new_port wasm_driver_output init_command wasm_initialize_runtime wasm_driver_start
call_converses_example =
    call_converses truncate client truncate api asks_once 2 (pos 0) (codes "call") 3 1 loaded_port
      (codes "add") add (ValKind.i32 ∷ ValKind.i64 ∷ []) (ValKind.i64 ∷ []) (five ∷ five ∷ []) []
      loaded-Reach refl refl refl call-Sends call-DecodesCall loaded-Callable
      (λ args c. asks_once-Answerable)

-- The call has arrived.
abbrev called_port : Driver
called_port = called (codes "add") two_fives loaded_port

pub called-Reach : Reach speaking truncate 2 (at (called_port, idle))
unfolding new_port wasm_driver_output init_command wasm_initialize_runtime wasm_driver_start
    call_command decode_list
called-Reach = later loaded-Reach (output 2 (codes "call") refl refl) refl

-- Its thread waits for the answer to a host call.
abbrev pub asked_port : Driver × Worker
asked_port =
    value_or
      (wasm_execute_function truncate truncate api (pos 0) asks_once
        (record called_port { jobs = [] }))
      (driver, idle)

pub call-Takes : Takes execute_function called_port.jobs []
unfolding new_port wasm_driver_output init_command wasm_initialize_runtime wasm_driver_start
call-Takes = record { front = []; back = []; queue_is = refl; rest_is = refl }

pub asked-Reach : Reach speaking truncate 2 (at asked_port)
unfolding new_port wasm_driver_output init_command wasm_initialize_runtime wasm_driver_start
    wasm_execute_function find_function erl_term_to_wasm_val is_invoke import_request
asked-Reach =
    later called-Reach (execute truncate api (pos 0) asks_once [] (λ f. cc) refl call-Takes refl)
      refl

Reach-Inv_example : Inv asked_port.0 asked_port.1
Reach-Inv_example = Reach-Inv asked-Reach

messages_bounded_example :
    length asked_port.0.sent
      + length asked_port.0.jobs
      + woken asked_port.1 asked_port.0.proc.current_import
    ≤ 2 + 0
messages_bounded_example = messages_bounded asked-Reach

stop_keeps_jobs_example :
    (t : Port) × Reach speaking truncate 2 t
    × (t.phase ≡ freed)
    × (t.driver.jobs ≡ called_port.jobs)
unfolding new_port wasm_driver_output init_command wasm_initialize_runtime wasm_driver_start
    stop_objects remove
stop_keeps_jobs_example = stop_keeps_jobs called-Reach refl refl refl refl

Step-Proceeds_example : Proceeds asked answered
unfolding new_port wasm_driver_output init_command wasm_initialize_runtime wasm_driver_start
    wasm_execute_function find_function erl_term_to_wasm_val is_invoke import_request
    import_response_command decode_list respond new_response
Step-Proceeds_example = Step-Proceeds asked-Reach (output 2 (codes "import_response") refl refl)
