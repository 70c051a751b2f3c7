-- ===== src/Checks/Clients.antt =====
-- Clients of a port.
use hyper_beam.Common.{
  ℕ, zero, suc, ◌+◌, ◌*◌, ◌/◌, ◌≡◌, refl, ap, true, Bytes, [], ◌∷◌, ◌++◌, none, arith, length, pos,
  leb, if◌then◌else◌, inl,
}
use hyper_beam.Core.Message.{codes}
use hyper_beam.Core.Runtime.{Memory}
use hyper_beam.Core.Process.{Driver}
use hyper_beam.Helpers.Exports.{first_memory}
use hyper_beam.Helpers.Strings.{c_string}
use hyper_beam.Logging.{error_message}
use hyper_beam.Beamr.Memory.Bounds.{HasMemory}
use hyper_beam.Wasm.Execute.{idle}
use hyper_beam.Messages.Terms.{ErlTerm, atom, text, tuple, erl_list, nil}
use hyper_beam.Port.{serving}
use hyper_beam.Client.Session.{
  System, Session, value, raised, blocked, undefined, raise, integer, is_valid_arg_list,
}
use hyper_beam.Client.Worker.Exchange.{Ready, no_job, took}
use hyper_beam.Client.Io.{write, read, read_string}
use hyper_beam.Client.Io.Offsets.{offset_undefined}
use hyper_beam.Client.Io.Strings.{read_string_lem}
use hyper_beam.Client.Io.Untouched.{Untouched}
use hyper_beam.Client.Call.{error, indexed, call, monitor_call, Imported, ImportFun, stub, event}
use hyper_beam.Client.Call.Failure.{import_error_hangs, indirect_call_unknown}
use hyper_beam.Client.Image.{serialize, deserialize}
use hyper_beam.Client.Image.Laws.{deserialize-serialize, deserialize_ignores}
use hyper_beam.Client.Reach.{Keeps}
use hyper_beam.Checks.Codec.{plain_ei}
use hyper_beam.Checks.Codec.Laws.{plain_codec}
use hyper_beam.Checks.Data.{zeros, length-zeros, exports, driver}
use hyper_beam.Checks.Loads.{loader, leftover}
use hyper_beam.Checks.Machine.{machine}
use hyper_beam.Checks.Ports.{truncate}
use hyper_beam.Checks.Runs.{api}
use hyper_beam.Checks.System.{asks_once}

abbrev pub system : System
system = record {
  ei = plain_ei;
  codec = plain_codec;
  erts = machine;
  caller = 2;
  narrow = truncate;
  fill = truncate;
  api = api;
  leftover = pos 0;
  run = asks_once;
  loader = loader;
  garbage = leftover;
}

-- A page that begins with a text.
abbrev pub text_page : Memory
text_page = record { pages = 1; bytes = codes "hello" ++ zeros 65531 }

abbrev pub text_driver : Driver
text_driver = record driver { memories = text_page ∷ [] }

-- A client that has a port for itself.
abbrev pub session : Session
session = record {
  port = record { driver = text_driver; worker = idle; phase = serving; released = [] };
  alive = true;
  taken = 0;
  inbox = [];
}

pub session-Ready : Ready session
session-Ready = record { lives = refl; in_step = refl; no_mail = refl; rests = no_job refl refl }

pub text_page-size : length text_page.bytes ≡ 65536
text_page-size = omega (arith, length-zeros 65531)

pub session-HasMemory : HasMemory text_driver exports 0 text_page
unfolding first_memory
session-HasMemory = record {
  instance_is = refl;
  first_is = refl;
  held = refl;
  sized = text_page-size;
}

c_string-zeros : (n : ℕ) → c_string (zeros n) ≡ []
unfolding c_string zeros
c_string-zeros zero = refl
c_string-zeros (suc n) = refl

text_is : c_string text_page.bytes ≡ codes "hello"
unfolding c_string
text_is = rw (c_string-zeros 65531)

abbrev size : ℕ
size = length (c_string text_page.bytes)

-- In chunks of three bytes.
read_string_lem_example :
    (s' : Session) × Untouched session s'
    × (read_string system 2 (pos 0) (pos 3) session ≡ (
        if leb (0 + (size / 3 * 3 + 3)) (length text_page.bytes)
        then value (c_string text_page.bytes) s'
        else raised s'))
read_string_lem_example =
    read_string_lem system exports 0 text_page (omega arith) 2 0 3 session session-Ready
      session-HasMemory (omega arith) (omega arith)
      (omega (arith, ap (length {A = ℕ}) text_is, text_page-size))
      (omega (arith, ap (length {A = ℕ}) text_is))

deserialize-serialize_example :
    (bytes : Bytes) × (s' t' : Session) × (serialize system session ≡ value bytes s')
    × (deserialize system bytes session ≡ value tt t')
    × HasMemory t'.port.driver exports 0 (record text_page { bytes = text_page.bytes })
deserialize-serialize_example =
    deserialize-serialize system session session exports exports 0 0 text_page text_page
      session-Ready session-HasMemory (omega arith) session-Ready session-HasMemory (omega arith)
      refl

deserialize_ignores_example :
    (s' : Session) × Untouched session s' × (deserialize system (zeros 65537) session ≡ value tt s')
deserialize_ignores_example =
    deserialize_ignores system session-Ready session-HasMemory (omega arith) (zeros 65537)
      (omega (arith, text_page-size, length-zeros 65537)) (omega (arith, length-zeros 65537))

-- An import function that raises.
abbrev raises : ImportFun ℕ
raises st i = raise

abbrev request : ErlTerm
request = tuple (
    erl_list (
      atom (codes "import")
      ∷ text (codes "env")
      ∷ text (codes "f")
      ∷ nil
      ∷ text (codes "()v")
      ∷ []))

abbrev asked : Session
asked = record session { inbox = request ∷ [] }

import_error_hangs_example : monitor_call system raises 5 9 asked ≡ blocked
unfolding event
import_error_hangs_example =
    import_error_hangs system raises 5 9 asked (record asked { inbox = [] }) request
      (text (codes "env")) (text (codes "f")) nil (text (codes "()v")) none (omega arith) refl refl
      (inl refl) refl refl refl

indirect_call_unknown_example :
    call system raises 5 (indexed (pos 4)) (integer (pos 1) ∷ []) 9 session
    ≡ value
        (error (text (codes "Unknown command")) 9)
        (took (error_message (codes "Unknown command")) text_driver session)
unfolding is_valid_arg_list
indirect_call_unknown_example =
    indirect_call_unknown system raises 5 (pos 4) (integer (pos 1) ∷ []) 9 session (omega arith)
      session-Ready refl

stub-Keeps : (st : ℕ) (i : Imported) → Keeps system (stub st i)
unfolding stub
stub-Keeps st i s v = v

offset_undefined_example :
    (write system (pos 9223372036854775808) (codes "hello") session ≡ undefined)
    × (read system (pos 9223372036854775808) (pos 5) session ≡ undefined)
offset_undefined_example =
    offset_undefined system 9223372036854775808 (codes "hello") (pos 5) session (omega arith) refl
