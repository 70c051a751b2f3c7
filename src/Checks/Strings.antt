-- ===== src/Checks/Strings.antt =====
-- A text that a client puts into the memory of a module with a `malloc`.
use hyper_beam.Common.{◌≡◌, refl, List, [], ◌∷◌, ◌++◌, some, stored, arith, pos}
use hyper_beam.Core.Values.{ValKind, WasmVal}
use hyper_beam.Core.Message.{codes}
use hyper_beam.Core.Runtime.{ExternType, Func, Extern}
use hyper_beam.Helpers.Convert.Echo.{val}
use hyper_beam.Wasm.Execute.{Run, returned, wasm_execute_function, execute_finish, execute_message}
use hyper_beam.Messages.Terms.{int, nil, cons}
use hyper_beam.Helpers.Convert.Loop.{cells}
use hyper_beam.Helpers.Convert.{erl_term_to_wasm_val}
use hyper_beam.Beamr.Output.{wasm_driver_output}
use hyper_beam.Checks.Codec.{atom_at, binary_of, text_at, type_at, count_at, term_at, ei_terms}
use hyper_beam.Checks.Machine.{build}
use hyper_beam.Client.Session.{is_valid_arg_list, integer, System, Session, value}
use hyper_beam.Client.Call.{named, plain_call}
use hyper_beam.Client.Worker.Exchange.{Ready, no_job}
use hyper_beam.Client.Io.{ok, read_string}
use hyper_beam.Client.Io.Untouched.{Untouched}
use hyper_beam.Client.Allocate.{write_string}
use hyper_beam.Client.Allocate.Laws.{read_string-write_string}
use hyper_beam.Helpers.Exports.{first_memory, find_function}
use hyper_beam.Beamr.Memory.Bounds.{HasMemory}
use hyper_beam.Checks.Clients.{system, text_page, text_page-size, text_driver, session}
use hyper_beam.Checks.Data.{proc}

abbrev malloc_func : Func
malloc_func = record {
  type = record { params = some (ValKind.i32 ∷ []); results = some (ValKind.i32 ∷ []) };
  func_comm_rt = 9;
}

-- It always gives the same place.
abbrev allocates : Func → List WasmVal → List WasmVal → Run
allocates f args results = returned (val ValKind.i32 100 ∷ [])

abbrev with_malloc : System
with_malloc = record system { run = allocates }

abbrev malloc_session : Session
malloc_session = record session {
  port = record session.port {
    driver = record text_driver {
      proc = record proc {
        instance_ = stored (some (Extern.memory 0 ∷ Extern.func malloc_func ∷ []));
        module_ = stored (
            some (record {
              imports = [];
              exports =
                  record { name = some (codes "memory" ++ (0 ∷ [])); type = ExternType.memory }
                  ∷ record {
                    name = some (codes "malloc" ++ (0 ∷ []));
                    type = ExternType.func malloc_func.type;
                  }
                  ∷ [];
            }));
      };
    };
  };
}

-- What the call of `malloc` leaves.
abbrev allocated_session : Session
allocated_session = record malloc_session {
  port = record malloc_session.port {
    driver = record malloc_session.port.driver {
      proc = record malloc_session.port.driver.proc {
        current_function = stored (stored (codes "malloc"));
        current_args = stored (some (cells (ei_terms (integer (pos 3) ∷ []))));
      };
      sent = execute_message (val ValKind.i32 100 ∷ []) ∷ [];
    };
  };
  taken = 1;
}

malloc_gives :
    plain_call with_malloc 3 (named (codes "malloc")) (integer (pos 3) ∷ []) malloc_session
    ≡ value (cons (int 100) nil) allocated_session
unfolding plain_call is_valid_arg_list wasm_driver_output atom_at binary_of text_at type_at count_at
    term_at wasm_execute_function find_function erl_term_to_wasm_val execute_finish build
    execute_message ei_terms
malloc_gives = refl

allocated-Ready : Ready allocated_session
allocated-Ready = record { lives = refl; in_step = refl; no_mail = refl; rests = no_job refl refl }

allocated-HasMemory :
    HasMemory allocated_session.port.driver
      (Extern.memory 0 ∷ Extern.func malloc_func ∷ [])
      0
      text_page
unfolding first_memory
allocated-HasMemory = record {
  instance_is = refl;
  first_is = refl;
  held = refl;
  sized = text_page-size;
}

read_string-write_string_example :
    (s₂ s₃ : Session) × (write_string with_malloc 3 (codes "hi") malloc_session
      ≡ value (ok (int 100)) s₂)
    × (read_string with_malloc 1 (pos 100) (pos 8) s₂ ≡ value (codes "hi") s₃)
    × Untouched s₂ s₃
read_string-write_string_example =
    read_string-write_string with_malloc 3 1 100 8 (codes "hi") malloc_session allocated_session
      (Extern.memory 0 ∷ Extern.func malloc_func ∷ []) 0 text_page malloc_gives (λ e. omega arith)
      allocated-Ready allocated-HasMemory (omega arith) (omega (arith, text_page-size)) refl
      (omega arith) (omega arith) (omega arith) (omega (arith, text_page-size))
