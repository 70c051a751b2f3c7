-- ===== src/Beamr/Output.antt =====
-- native/hb_beamr/hb_beamr.c: `wasm_driver_output`, the commands that arrive at a port. Each
-- handler starts behind the command's name, at an index of the buffer.
pub mod Answers
pub mod Calls
pub mod Headers
use hyper_beam.Common.{
  ℕ, ◌+◌, Bool, true, false, Bytes, [], ◌∷◌, ◌++◌, Option, none, some, Cell, junk, stored, Outcome,
  done, fault, ◌>>=◌, fetch, leb, if◌then◌else◌, length,
}
use hyper_beam.Core.Message.{codes}
use hyper_beam.Core.Process.{
  Terms, ImportResponse, LoadWasmReq, Proc, Job, initialize_runtime, execute_function, Driver,
}
use hyper_beam.Helpers.Exports.{deref}
use hyper_beam.Helpers.Strings.{strcmp_eq}
use hyper_beam.Helpers.Terms.{Ei, to_cell, decode_list}
use hyper_beam.Logging.{send_error}
use hyper_beam.Beamr.Memory.{write_command, read_command, size_command}

-- `driver_async`
abbrev pub async : Job → Driver → Driver
async j d = record d { jobs = d.jobs ++ (j ∷ []) }

-- A decoded value goes into a buffer of a given size, one byte of it for the NUL of a text; it is
-- left uninitialised if nothing was decoded.
unfoldable pub into_buffer : ℕ → ℕ → Option Bytes → Outcome (Cell Bytes)
into_buffer room extra none = done junk
into_buffer room extra (some b) = if leb (length b + extra) room then done (stored b) else fault

-- `MAXATOMLEN` of ei.h.
abbrev pub max_atom_len : ℕ
max_atom_len = 256

-- `drv_signal` sets `ready`; its protocol with the waiting thread is the module `Sync`.
unfoldable pub respond : Terms → ImportResponse → ImportResponse
respond terms r = record r {
  ready = true;
  error_message = stored none;
  result_terms = stored terms;
}

module _ (ei : Ei) (caller : ℕ) (buff : Bytes) where
  unfoldable pub init_command : ℕ → Driver → Outcome Driver
  unfolding into_buffer
  init_command index d = deref (ei.get_type buff index) >>= λ (_, size).
      let (binary, index) = ei.decode_binary buff index in
      into_buffer size 0 binary >>= λ wasm_binary.
      deref (ei.get_type buff index) >>= λ (_, mode_size).
      into_buffer (mode_size + 1) 1 (ei.decode_atom buff index).0 >>= λ mode.
      let request : LoadWasmReq = record { binary = wasm_binary; size = size; mode = mode } in
      done (
        async (initialize_runtime request)
          (record d { proc = record d.proc { pid = stored caller } }))

  unfoldable pub call_command : ℕ → Driver → Outcome Driver
  unfolding into_buffer decode_list send_error
  call_command index d =
      if d.proc.is_initialized
      then (let (name, index) = ei.decode_string buff index in
          into_buffer max_atom_len 1 name >>= λ function_name.
          decode_list ei buff index >>= λ (args, _). done (
            async execute_function (record d {
              proc = record d.proc {
                current_function = stored function_name;
                current_args = stored args;
              };
            })))
      else done (send_error (codes "Cannot run WASM function as module not initialized.") d)

  -- The pending import, or `NULL`.
  unfoldable pub answer_import : ℕ → Driver → Option ImportResponse → Outcome Driver
  unfolding decode_list respond send_error
  answer_import index d none = done (send_error (codes "No pending import response waiting") d)
  answer_import index d (some r) = decode_list ei buff index >>= λ (terms, _).
      done (record d { proc = record d.proc { current_import = stored (some (respond terms r)) } })

  unfoldable pub import_response_command : ℕ → Driver → Outcome Driver
  unfolding answer_import
  import_response_command index d = fetch d.proc.current_import >>= answer_import index d

  -- The chain of comparisons with the names of the commands.
  unfoldable pub dispatch : Bytes → ℕ → Driver → Outcome Driver
  unfolding strcmp_eq send_error init_command call_command import_response_command
  dispatch command index d =
      if strcmp_eq command (codes "init")
      then init_command index d
      else if strcmp_eq command (codes "call")
      then call_command index d
      else if strcmp_eq command (codes "import_response")
      then import_response_command index d
      else if strcmp_eq command (codes "write")
      then write_command ei buff index d
      else if strcmp_eq command (codes "read")
      then read_command ei buff index d
      else if strcmp_eq command (codes "size")
      then size_command d
      else done (send_error (codes "Unknown command") d)

  -- The version of the external term format, if there is one, and what is behind it. A header that
  -- is no tuple goes unnoticed; a command that is no atom leaves the name uninitialised.
  unfoldable pub after_version : ℕ → Driver → Option ℕ → Outcome Driver
  unfolding dispatch send_error
  after_version index d none =
      done (send_error (codes "Failed to decode message header (version).") d)
  after_version index d (some _) =
      let (_, index) = ei.decode_tuple_header buff index in
      let (command, index) = ei.decode_atom buff index in deref command >>= λ c. dispatch c index d

  unfoldable pub wasm_driver_output : Driver → Outcome Driver
  unfolding after_version
  wasm_driver_output d =
      let (version, index) = ei.decode_version buff 0 in after_version index d version
