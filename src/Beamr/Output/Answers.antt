-- ===== src/Beamr/Output/Answers.antt =====
-- native/hb_beamr/hb_beamr.c: the answers of `wasm_driver_output` to a command: a message, a job, or
-- the waking of the thread that waits for an import response.
use hyper_beam.Common.{
  Ensures-if_eq, ℕ, ◌≡◌, refl, true, Bytes, [], ◌∷◌, ◌++◌, Option, none, some, stored, Outcome,
  done, fetch, Ensures, Ensures-bind, Ensures-if, ensures_done, Ensures-bind_eq, fetch-eq-done, ℤ,
  arith, ltb_ℤ, pos, length, leb, take, ◌/◌, ◌+◌,
}
use hyper_beam.Core.Message.{Message, codes}
use hyper_beam.Core.Runtime.{Memory}
use hyper_beam.Core.Process.{ImportResponse, Job, execute_function, Driver}
use hyper_beam.Helpers.Exports.{deref, get_memory, memory_at, get_memory_size}
use hyper_beam.Helpers.Strings.{strcmp_eq}
use hyper_beam.Helpers.Terms.{Ei, decode_list}
use hyper_beam.Logging.{output_term, send_error, error_message}
use hyper_beam.Beamr.Memory.{
  add_long, copy_in, copy_out, store_bytes, write_message, write_bytes, read_bytes, write_command,
  read_command, size_command, size_message,
}
use hyper_beam.Beamr.Output.{
  respond, init_command, call_command, answer_import, import_response_command, dispatch,
  after_version, wasm_driver_output, into_buffer, max_atom_len,
}

-- What no command changes.
pub record Kept (d d' : Driver) : Type 0 where
  pub same_instance : d'.proc.instance_ ≡ d.proc.instance_
  pub same_module : d'.proc.module_ ≡ d.proc.module_
  pub same_state : d'.proc.is_initialized ≡ d.proc.is_initialized
  pub same_lock : d'.proc.locked ≡ d.proc.locked

-- A new message and no job; a new job and no message; or an answer for a pending import and neither.
pub data Answer (d d' : Driver) : Type 0 where
  message :
      (m : Message)
      → d'.sent ≡ d.sent ++ (m ∷ [])
      → d'.jobs ≡ d.jobs
      → d'.proc ≡ d.proc
      → Answer d d'
  job :
      (j : Job)
      → d'.sent ≡ d.sent
      → d'.jobs ≡ d.jobs ++ (j ∷ [])
      → d'.proc.current_import ≡ d.proc.current_import
      → (j ≡ execute_function → d.proc.is_initialized ≡ true)
      → Answer d d'
  wake_up :
      (r r' : ImportResponse)
      → d.proc.current_import ≡ stored (some r)
      → d'.proc.current_import ≡ stored (some r')
      → r'.ready ≡ true
      → d'.sent ≡ d.sent
      → d'.jobs ≡ d.jobs
      → Answer d d'

abbrev pub Answered : Driver → Driver → Type 0
Answered d d' = Kept d d' × Answer d d'

-- A handler answers whenever it comes to its end.
abbrev pub Answers : (Driver → Outcome Driver) → Type 0
Answers handler = (d : Driver) → Ensures (Answered d) (handler d)

by_message :
    (d d' : Driver) (m : Message)
    → d'.proc ≡ d.proc
    → d'.sent ≡ d.sent
    → d'.jobs ≡ d.jobs
    → Answered d (output_term m d')
by_message d d' m p s j = (ground arith, message m (ground arith) j p)

by_error : (s : Bytes) (d : Driver) → Answered d (send_error s d)
unfolding send_error
by_error s d = by_message d d (error_message s) refl refl refl

store_bytes-Answered :
    (r : Option ℕ) (m : Memory) (bytes : Bytes) (msg : Message) (d : Driver)
    → Answered d (output_term msg (store_bytes r m bytes d))
unfolding store_bytes
store_bytes-Answered none m bytes msg d = by_message d _ msg refl refl refl
store_bytes-Answered (some a) m bytes msg d = by_message d _ msg refl refl refl

write_bytes-Answers : (ptr : ℤ) (src : Bytes) → Answers (write_bytes ptr src)
unfolding write_bytes
write_bytes-Answers ptr src d = Ensures-bind _ (get_memory_size d) _ λ size.
    Ensures-bind _ (add_long ptr (pos (length src))) _ λ end.
      Ensures-if _ (ltb_ℤ (pos size) end) _ _ (by_error (codes "Write request out of bounds") d) (
        Ensures-bind _ (get_memory d.proc) _ λ r. Ensures-bind _ (memory_at d.memories r) _ λ m.
          Ensures-bind _ (copy_in m.bytes ptr src) _
            λ bytes. store_bytes-Answered r m bytes write_message d)

read_bytes-Answers : (ptr size : ℤ) → Answers (read_bytes ptr size)
unfolding read_bytes
read_bytes-Answers ptr n d = Ensures-bind _ (get_memory_size d) _ λ size.
    Ensures-bind _ (add_long ptr n) _ λ end.
      Ensures-if _ (ltb_ℤ (pos size) end) _ _ (by_error (codes "Read request out of bounds") d) (
        Ensures-bind _ (get_memory d.proc) _ λ r.
          Ensures-bind _ (memory_at d.memories r) _
            λ m. Ensures-bind _ (copy_out m.bytes ptr n) _ λ out. by_message d d _ refl refl refl)

size_command-Answers : Answers size_command
unfolding size_command
size_command-Answers d =
    Ensures-bind _ (get_memory_size d) _ λ size. by_message d d (size_message size) refl refl refl

module _ (ei : Ei) (buff : Bytes) (index : ℕ) where
  write_command-Answers : Answers (write_command ei buff index)
  unfolding write_command
  write_command-Answers d =
      let ptr = ei.decode_long buff (ei.decode_tuple_header buff index).1 in
      Ensures-bind (Answered d) (deref ptr.0) _ λ p.
        Ensures-bind (Answered d) (deref (ei.decode_bitstring buff ptr.1).0) _ λ binary.
          Ensures-if (Answered d) (leb (binary.1 / 8) (length binary.0)) _ _
            (write_bytes-Answers p (take (binary.1 / 8) binary.0) d) tt

  read_command-Answers : Answers (read_command ei buff index)
  unfolding read_command
  read_command-Answers d =
      let ptr = ei.decode_long buff (ei.decode_tuple_header buff index).1 in
      Ensures-bind (Answered d) (deref ptr.0) _ λ p.
        Ensures-bind (Answered d) (deref (ei.decode_long buff ptr.1).0) _
          λ size. read_bytes-Answers p size d

  init_command-Answers : (caller : ℕ) → Answers (init_command ei caller buff index)
  unfolding init_command
  init_command-Answers caller d =
      let binary = ei.decode_binary buff index in
      Ensures-bind (Answered d) (deref (ei.get_type buff index)) _ λ type.
        Ensures-bind (Answered d) (into_buffer type.1 0 binary.0) _ λ wasm_binary.
          Ensures-bind (Answered d) (deref (ei.get_type buff binary.1)) _ λ mode_type.
            Ensures-bind (Answered d)
              (into_buffer (mode_type.1 + 1) 1 (ei.decode_atom buff binary.1).0) _
              λ mode. (ground arith, job _ refl refl refl (λ e. cc))

  call_command-Answers : (caller : ℕ) → Answers (call_command ei caller buff index)
  unfolding call_command
  call_command-Answers caller d =
      Ensures-if_eq _ d.proc.is_initialized _ _
        (λ on.
          Ensures-bind (Answered d) (into_buffer max_atom_len 1 (ei.decode_string buff index).0) _
            λ name.
              Ensures-bind (Answered d) (decode_list ei buff (ei.decode_string buff index).1) _
                λ args. (ground arith, job execute_function refl refl refl (λ e. on)))
        (λ off. by_error (codes "Cannot run WASM function as module not initialized.") d)

  answer_import-Answered :
      (caller : ℕ) (d : Driver) (pending : Option ImportResponse)
      → d.proc.current_import ≡ stored pending
      → Ensures (Answered d) (answer_import ei caller buff index d pending)
  unfolding answer_import respond
  answer_import-Answered caller d none e = by_error (codes "No pending import response waiting") d
  answer_import-Answered caller d (some r) e =
      Ensures-bind (Answered d) (decode_list ei buff index) _
        λ terms. (ground arith, wake_up r _ e refl refl refl refl)

  import_response-Answers : (caller : ℕ) → Answers (import_response_command ei caller buff index)
  unfolding import_response_command
  import_response-Answers caller d =
      Ensures-bind_eq _ (fetch d.proc.current_import) _
        λ pending e. answer_import-Answered caller d pending (fetch-eq-done d.proc.current_import e)

  dispatch-Answers :
      (caller : ℕ) (command : Bytes) → Answers (dispatch ei caller buff command index)
  unfolding dispatch
  dispatch-Answers caller command d =
      Ensures-if _ (strcmp_eq command (codes "init")) _ _ (init_command-Answers caller d) (
        Ensures-if _ (strcmp_eq command (codes "call")) _ _ (call_command-Answers caller d) (
          Ensures-if _ (strcmp_eq command (codes "import_response")) _ _
            (import_response-Answers caller d)
            (Ensures-if _ (strcmp_eq command (codes "write")) _ _ (write_command-Answers d) (
              Ensures-if _ (strcmp_eq command (codes "read")) _ _ (read_command-Answers d) (
                Ensures-if _ (strcmp_eq command (codes "size")) _ _ (size_command-Answers d)
                  (by_error (codes "Unknown command") d))))))

after_version-Answers :
    (ei : Ei) (caller : ℕ) (buff : Bytes) (index : ℕ) (d : Driver) (version : Option ℕ)
    → Ensures (Answered d) (after_version ei caller buff index d version)
unfolding after_version
after_version-Answers ei caller buff index d none =
    by_error (codes "Failed to decode message header (version).") d
after_version-Answers ei caller buff index d (some _) =
    let command = ei.decode_atom buff (ei.decode_tuple_header buff index).1 in
    Ensures-bind (Answered d) (deref command.0) _ λ c. dispatch-Answers ei buff command.1 caller c d

-- Every command that is handled without undefined behaviour is answered exactly once, with nothing
-- else sent or queued: by one message to Erlang, which may be an error and leaves the process as it
-- was, by one job, which leaves the pending import alone and is a call only if the port is
-- initialized, or by waking the thread of a pending import. No command touches the instance,
-- the module, the flag `is_initialized` or the mutex `is_running`.
pub output_answers :
    (ei : Ei) (caller : ℕ) (buff : Bytes) (d : Driver) {d' : Driver}
    → wasm_driver_output ei caller buff d ≡ done d'
    → Kept d d' × Answer d d'
unfolding wasm_driver_output
output_answers ei caller buff d h =
    ensures_done (Answered d) _
      (after_version-Answers ei caller buff _ d (ei.decode_version buff 0).0) h
