-- ===== src/Lib.antt =====
-- HyperBEAM's port driver for WebAssembly, hb_beamr (native/hb_beamr), and its Erlang clients.
--
-- A port runs one WebAssembly module for one Erlang process. Erlang sends it commands, which
-- `wasm_driver_output` handles in the driver's thread: `init`, `call` and `import_response`, and
-- `write`, `read` and `size` on the linear memory. `init` and `call` queue jobs, which run in another
-- thread under the mutex `is_running`: `wasm_initialize_runtime` and `wasm_execute_function`. Code
-- that a job runs may call a host function, `wasm_handle_import`: it sends the arguments to Erlang and
-- waits on a condition until the command `import_response`, or the stop of the port, wakes it. Every
-- answer is a message for `erl_drv_output_term`.
--
-- The files, by the code that they model:
--   Common          lists, integers and tests over the native numbers; `Common/Memory` has the cells of
--                   memory, which may be uninitialised (`junk`), and the outcomes of C code: a value, or
--                   `fault` for what C leaves undefined (an access out of bounds or through `NULL`, a
--                   read of uninitialised memory, an overflow of a `long`)
--   Core            include/hb_core.h: `Proc`, `ImportResponse`, `ImportHook`, `LoadWasmReq` as records
--                   (Core/Process), the runtime's types as the driver sees them (Core/Runtime), its
--                   objects that are to be deleted (Core/Objects), values and terms (Core/Values),
--                   messages slot by slot and the atoms of hb_beamr.c (Core/Message)
--   Helpers         hb_helpers.c: conversions (Helpers/Convert), `get_function_sig`
--                   (Helpers/Signature), the searches among exports and the memory's size
--                   (Helpers/Exports), `decode_list` (Helpers/Terms), C's string functions
--                   (Helpers/Strings)
--   Logging         hb_logging.c: `send_error` and `beamr_print`
--   Beamr           hb_beamr.c: start and stop (Beamr/Lifecycle), the commands (Beamr/Output), those
--                   on the memory (Beamr/Memory), the table of callbacks (Beamr/Entry)
--   Wasm            hb_wasm.c: `wasm_handle_import` before and after its wait (Wasm/Import), the two
--                   calls that the driver makes itself (Wasm/Indirect), `wasm_initialize_runtime`
--                   (Wasm/Initialize), `wasm_execute_function` (Wasm/Execute)
--   Port            the whole port: a step relation of the callbacks and the jobs, with its invariants
--                   (Port/Invariant, Port/Calls), the count of its messages (Port/Accounts), its
--                   protocol (Port/Protocol), its loading (Port/Loading), whole calls
--                   (Port/Conversation), writes during a host call (Port/Writing), its stop
--                   (Port/Shutdown, Port/Hazards, Port/Deadlock)
--   Sync            hb_driver.c: `drv_wait` and `drv_signal` as a step relation of two threads, one step
--                   for each access of the shared state, wake-ups without a signal included; what
--                   it promises is Sync/Handoff
--   Messages        what the messages of the driver denote as Erlang terms, and the room that is
--                   allocated for them
--   Client          src/hb_beamr.erl and src/hb_beamr_io.erl, the Erlang side: the worker process
--                   (Client/Worker), `call` with its import function, and `start` (Client/Call),
--                   `read`, `write` and `read_string` (Client/Io), `malloc` and `write_string` (Client/Allocate),
--                   `serialize` and `deserialize` (Client/Image), and what a client's code is, with
--                   the terms that it sends (Client/Session); Client/Reach ties it to Port
--   Checks          examples and tests
--
-- How code becomes definitions. A C function is a function of the same name from the state before to
-- the state after; where it is long, its parts behind a test have names of their own (`after_...`).
-- `Driver` is the state of a port: its `Proc`, the memories and the objects of the runtime, the
-- messages sent and the jobs queued. A job that waits in a host call is a `Worker` with what is left
-- to run. A mutex is a Boolean here, since a job starts only once it has it; the module Sync has the
-- lock in full. A step of the module Port is what a callback or a job does between two points at which
-- it waits; queued jobs are taken in any order, also while the stop of the port waits for the mutex.
--
-- Erlang code is an `Action`: from a `Session` (the port, the worker process, the mailbox) it
-- comes to a value, raises, waits for ever in a `receive`, or makes the driver do something
-- undefined. A command that is sent is handled, the driver's thread then goes on until it waits or
-- is through, and only then does the worker pass the messages on; one client at a time uses a
-- port, as a comment on `worker` asks for. In the source a message may reach the client while the
-- thread that sent it has still to reset `current_import`, to set `is_initialized` and to give the
-- mutex back, and the client's next command may come in between: the states of a `Session` are
-- those in which a thread's turn is through, and what this hides when a port is started is stated
-- with `start` (Client/Call/Starting). `?event` is left out.
--
-- Parameters stand for code that is not in this repository: `Ei` for the decoders of ei, `Loader`
-- and `CallApi` for the WebAssembly runtime, `Run` for what a called function does, `TermBuilder`
-- for the way in which `erl_drv_output_term` reads a message (with its documented rule for each
-- tag), `Codec` for `term_to_binary`, by what the decoders of ei find in its output, `narrow` for
-- the conversion of a double to a float, and `fill` and `leftover` for what uninitialised memory
-- holds by chance.
--
-- Numbers are natural numbers with their bound written out: the size of a memory is a product
-- modulo 2^32, values are patterns of 64 bits, and `ptr` and `size` of a command are integers
-- whose sum must be a `long`. The driver has no fuel: all its loops run over lists or counters.
-- `monitor_call` takes fuel for the messages that it receives, and `read_string` for its chunks;
-- the theorems say how much is enough. Of the threads, the number of steps after an answer is
-- bounded in the module Sync. Lists of arguments are decoded where all integers are of 32 bits:
-- for what does not fit an `ei_term`, `ei_decode_ei_term` may assign nothing. A short float is
-- sent as the double that its eight bytes hold, so what messages mean is said of the other kinds.
--
-- Not modelled: the host calls and their answers in the code that an indirect call runs (the runtime's
-- function for it is a parameter that may change the memories only); calls of
-- `beamr_print`, including the reads that only serve them, except those in `drv_signal`; the memory
-- that the driver allocates for responses, hooks and buffers, and `exec_env` of `Proc`; failing
-- allocations; the headers besides hb_core.h, which hold prototypes, macros and comments only; several
-- clients of one port, and what `erl_ddll` and `open_port` do when a port is started; the rest of the
-- Erlang code, and the Rust code, of the repository.
pub mod Common
pub mod Core
pub mod Helpers
pub mod Logging
pub mod Beamr
pub mod Wasm
pub mod Port
pub mod Sync
pub mod Messages
pub mod Client
mod Checks
