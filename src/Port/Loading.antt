-- ===== src/Port/Loading.antt =====
-- The first exchange with a port: an `init` and what Erlang gets for it.
use hyper_beam.Common.{
  ℕ, ◌+◌, ◌≤◌, ◌≡◌, refl, sym, ◌∙◌, false, Bytes, [], ◌∷◌, ◌++◌, some, stored, done, arith, length,
}
use mathlib.Core.List.{append-nil}
use hyper_beam.Core.Message.{codes, Message}
use hyper_beam.Core.Process.{LoadWasmReq, initialize_runtime, Driver}
use hyper_beam.Helpers.Strings.{strcmp_eq}
use hyper_beam.Helpers.Terms.{Ei}
use hyper_beam.Beamr.Output.{into_buffer, async, init_command, dispatch}
use hyper_beam.Beamr.Output.Headers.{Sends, output-dispatch}
use hyper_beam.Wasm.Initialize.{Loader}
use hyper_beam.Wasm.Initialize.Loads.{IsReady}
use hyper_beam.Wasm.Initialize.Ready.{Loadable, Announces, wasm_initialize_runtime-loads}
use hyper_beam.Wasm.Execute.{idle}
use hyper_beam.Port.{output, initialize, Reach, later}
use hyper_beam.Port.Transcript.{at}

-- An `init` with a binary and a mode that fit the buffers which are allocated for them.
pub record SendsInit (ei : Ei) (buff binary mode : Bytes) (size : ℕ) : Type 0 where
  pub index : ℕ
  pub sends : Sends ei buff (codes "init") index
  pub type : ℕ
  pub binary_size : ei.get_type buff index ≡ some (type, size)
  pub behind_binary : ℕ
  pub binary_is : ei.decode_binary buff index ≡ (some binary, behind_binary)
  pub binary_fits : length binary ≤ size
  pub mode_type : ℕ
  pub mode_size : ℕ
  pub mode_size_is : ei.get_type buff behind_binary ≡ some (mode_type, mode_size)
  pub mode_is : (ei.decode_atom buff behind_binary).0 ≡ some mode
  pub mode_fits : length mode ≤ mode_size

abbrev pub load_request : Bytes → Bytes → ℕ → LoadWasmReq
load_request binary mode size = record { binary = stored binary; size = size; mode = stored mode }

-- The port after the command.
abbrev pub init_taken : ℕ → LoadWasmReq → Driver → Driver
init_taken caller request d =
    async (initialize_runtime request) (record d { proc = record d.proc { pid = stored caller } })

into_buffer-fits :
    (room extra : ℕ) (b : Bytes)
    → length b + extra ≤ room
    → into_buffer room extra (some b) ≡ done (stored b)
unfolding into_buffer
into_buffer-fits room extra b h = ground (arith, h)

pub init_command-eq :
    (ei : Ei) (caller : ℕ) (buff binary mode : Bytes) (size : ℕ) (d : Driver)
    (h : SendsInit ei buff binary mode size)
    → init_command ei caller buff h.index d
      ≡ done (init_taken caller (load_request binary mode size) d)
unfolding init_command
init_command-eq ei caller buff binary mode size d h =
    rw
      (
        h.binary_size,
        h.binary_is,
        into_buffer-fits size 0 binary (omega (arith, h.binary_fits)),
        h.mode_size_is,
        h.mode_is,
        into_buffer-fits (h.mode_size + 1) 1 mode (omega (arith, h.mode_fits)),
      )
      refl

-- A port is loaded: in every state that a port can reach in which it serves and no job runs, an
-- `init` arrives whose binary and mode fit their buffers, and a thread takes the job. If the binary
-- is a module that can be linked, with an external for each export, names for all exports and
-- signatures of at most 256 bytes, then the port can come to a state in which it has the module and an
-- instance and is initialized, the mutex is free, the queue is as before, and the one message that
-- has been sent since is that of the module's imports and exports.
pub init_converses :
    {ei : Ei} {narrow : ℕ → ℕ} (loader : Loader) (leftover : ℕ → Bytes) (caller : ℕ)
    (buff binary mode : Bytes) (size n : ℕ) (d : Driver)
    → Reach ei narrow n (at (d, idle))
    → d.proc.locked ≡ false
    → SendsInit ei buff binary mode size
    → (can : Loadable loader (load_request binary mode size) d)
    → (d' : Driver) × (msg : Message) × Reach ei narrow (n + 1) (at (d', idle))
      × IsReady d'.proc
      × (d'.proc.module_ ≡ stored (some can.m))
      × (d'.proc.locked ≡ false)
      × (d'.jobs ≡ d.jobs)
      × Announces loader leftover can.m msg
      × (d'.sent ≡ d.sent ++ (msg ∷ []))
unfolding dispatch strcmp_eq
init_converses {ei} loader leftover caller buff binary mode size n d r free h can =
    let request = load_request binary mode size in
    let taken =
      output-dispatch ei caller buff (codes "init") h.index d h.sends
      ∙ init_command-eq ei caller buff binary mode size d h in
    let popped = record (init_taken caller request d) { jobs = d.jobs } in
    let (d', msg, ends, says, sent, jobs, ready, module_is, unlocked, between) =
      wasm_initialize_runtime-loads loader leftover request popped (record {
        m = can.m;
        loads = can.loads;
        short = can.short;
        named = can.named;
        instance = can.instance;
        links = can.links;
      }) in
    let r₁ = later {n = n} {m = n + 1} r (output caller buff refl taken) refl in
    let r₂ =
      later {n = n + 1} {m = n + 1} r₁
        (initialize loader leftover request d.jobs (λ f. cc) free
          (record { front = d.jobs; back = []; queue_is = refl; rest_is = sym (append-nil d.jobs) })
          ends)
        (omega arith) in
    (d', msg, r₂, ready, module_is, unlocked, jobs, says, sent)
