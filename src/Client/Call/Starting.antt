-- ===== src/Client/Call/Starting.antt =====
-- src/hb_beamr.erl: what `start` returns.
use hyper_beam.Common.{ℕ, ◌≡◌, refl, Bytes, List, [], ◌∷◌, none, stored, take}
use hyper_beam.Core.Message.{codes}
use hyper_beam.Core.Runtime.{Memory}
use hyper_beam.Beamr.Lifecycle.{wasm_driver_start}
use hyper_beam.Wasm.Initialize.Ready.{Loadable}
use hyper_beam.Messages.Loads.{AllFunctions}
use hyper_beam.Messages.Terms.{ErlTerm, atom, text, tuple, erl_list}
use hyper_beam.Port.{new_port}
use hyper_beam.Port.Loading.{SendsInit, load_request}
use hyper_beam.Client.Session.{
  Request, System, Session, undefined, ◌>>=◌, receive, tagged, bytes_eq, list_elements,
}
use hyper_beam.Client.Session.Laws.{bind-value, receive-first}
use hyper_beam.Client.Worker.{wasm_send, closed, stop}
use hyper_beam.Client.Call.{start_answer, after_start, spawned, start}
use hyper_beam.Client.Call.Hears.{loading, heard, start-hears}
use hyper_beam.Beamr.Lifecycle.{stop_signal}
use hyper_beam.Client.Io.{error_reason}
use hyper_beam.Helpers.Strings.{c_string}
use hyper_beam.Logging.{send_error, error_message}
use hyper_beam.Messages.Denote.{error_message-denotes}
use hyper_beam.Wasm.Initialize.Failure.{unloaded, failed_load}

-- The term that the port announces a module with.
abbrev announcement : ErlTerm → ErlTerm → ErlTerm
announcement imports exports =
    tuple (erl_list (atom (codes "execution_result") ∷ imports ∷ exports ∷ []))

-- The term of an error.
abbrev error_term : Bytes → ErlTerm
error_term s = tuple (erl_list (atom (codes "error") ∷ text (take 255 (c_string s)) ∷ []))

-- A client's `init` carries a binary and a mode that fit their buffers, and the binary is a module,
-- all of whose imports are functions with a signature, which can be linked, with an external for each
-- export, names for all exports and signatures of at most 256 bytes.
pub record Startable (sys : System) (port now : ℕ) (memories : List Memory) (binary mode : Bytes)
    (size : ℕ) : Type 0 where
  pub sends :
      SendsInit sys.ei (sys.codec.term_to_binary (Request.init binary mode)) binary mode size
  pub can :
      Loadable sys.loader
        (load_request binary mode size)
        (loading sys port now memories binary mode size)
  pub functions : AllFunctions can.m.imports

-- When what a client starts is no module, `start` ends in undefined behaviour of the driver: for the
-- error that it receives it stops the port, and the driver then reads the pending import of a process
-- structure that was never assigned one. This holds at every new port, for a binary and a mode that
-- fit their buffers.
pub start_undefined :
    (sys : System) (port now : ℕ) (memories : List Memory) (binary mode : Bytes) (size : ℕ)
    → SendsInit sys.ei (sys.codec.term_to_binary (Request.init binary mode)) binary mode size
    → sys.loader.module_new (stored binary) size ≡ none
    → start sys binary mode (spawned sys port now memories) ≡ undefined
unfolding start spawned after_start new_port wasm_driver_start send_error stop closed stop_signal
    start_answer error_reason tagged bytes_eq list_elements c_string
start_undefined sys port now memories binary mode size h fails =
    let d = loading sys port now memories binary mode size in
    let msg = error_message (codes "Failed to create module.") in
    let t = error_term (codes "Failed to create module.") in
    let z = heard sys port now memories (unloaded d) t in
    bind-value (wasm_send sys (Request.init binary mode))
      (λ _. receive start_answer >>= after_start sys) (spawned sys port now memories)
      (start-hears sys port now memories h msg
        (failed_load sys.loader sys.garbage (load_request binary mode size) d fails) refl
        (error_message-denotes sys.erts (codes "Failed to create module.")))
      (bind-value (receive start_answer) (after_start sys) z
        (receive-first start_answer z t [] refl refl) refl)
