-- ===== src/Port/Writing.antt =====
-- Erlang writes to the memory of a port while a host call waits for its answer.
use hyper_beam.Common.{
  ℕ, ◌+◌, ◌<◌, ◌≤◌, ◌/◌, ◌≡◌, refl, ◌∙◌, Bytes, List, [], ◌∷◌, ◌++◌, some, none, Cell, done, ℤ, pos,
  pos_part, arith, length, take, drop, take-length, take-append, drop-take-append,
}
use hyper_beam.Core.Values.{ValKind, WasmVal, EiTerm}
use hyper_beam.Core.Message.{codes}
use hyper_beam.Core.Runtime.{Memory, Instance}
use hyper_beam.Core.Process.{Terms, ImportHook, Driver}
use hyper_beam.Helpers.Convert.Loop.{Numbers, Converted, cells}
use hyper_beam.Helpers.Strings.{strcmp_eq}
use hyper_beam.Helpers.Terms.{Ei, decode_list}
use hyper_beam.Logging.{output_term}
use hyper_beam.Beamr.Entry.{wasm_driver_entry}
use hyper_beam.Beamr.Memory.{store_bytes, write_message, write_bytes, write_command}
use hyper_beam.Beamr.Memory.Bounds.{HasMemory, splice, store_bytes-HasMemory, length-splice}
use hyper_beam.Beamr.Memory.Transfer.{write_bytes-eq}
use hyper_beam.Beamr.Output.{dispatch}
use hyper_beam.Beamr.Output.Headers.{Sends, output-dispatch}
use hyper_beam.Wasm.Import.{Reply}
use hyper_beam.Wasm.Import.Protocol.{Waits, settled, response_taken, reply_goes_on}
use hyper_beam.Wasm.Indirect.{CallApi}
use hyper_beam.Wasm.Execute.{Run, waiting, advance, resume}
use hyper_beam.Port.{serving, Port, output, Reach, later}

-- A buffer that holds a `write` of some bytes at a pointer.
pub record SendsWrite (ei : Ei) (buff : Bytes) (p : ℕ) (src : Bytes) : Type 0 where
  pub index : ℕ
  pub sends : Sends ei buff (codes "write") index
  pub behind_ptr : ℕ
  pub ptr_is :
      ei.decode_long buff (ei.decode_tuple_header buff index).1 ≡ (some (pos p), behind_ptr)
  pub bits : ℕ
  pub bytes_are : (ei.decode_bitstring buff behind_ptr).0 ≡ some (src, bits)
  pub whole : bits / 8 ≡ length src

pub write_command-eq :
    (ei : Ei) (buff : Bytes) (p : ℕ) (src : Bytes) (d : Driver) (h : SendsWrite ei buff p src)
    → write_command ei buff h.index d ≡ write_bytes (pos p) src d
unfolding write_command
write_command-eq ei buff p src d h =
    rw (h.ptr_is, h.bytes_are, h.whole, take-length src) (ground arith)

-- The port after the `write`.
abbrev written : ℕ → Memory → ℕ → Bytes → Driver → Driver
written a m p src d = output_term write_message (store_bytes (some a) m (splice p src m.bytes) d)

write_taken :
    (ei : Ei) (caller : ℕ) (buff : Bytes) (p : ℕ) (src : Bytes) (d : Driver) (exports : Instance)
    (a : ℕ) (m : Memory)
    → HasMemory d exports a m
    → m.pages < 65536
    → p + length src ≤ length m.bytes
    → SendsWrite ei buff p src
    → wasm_driver_entry.output ei caller buff d ≡ done (written a m p src d)
unfolding dispatch strcmp_eq
write_taken ei caller buff p src d exports a m has small inside h =
    output-dispatch ei caller buff (codes "write") h.index d h.sends
    ∙ write_command-eq ei buff p src d h
    ∙ write_bytes-eq has small p src (ground (arith, has.sized))
    ∙ ground (arith, inside)

taken_back :
    (p : ℕ) (src bytes : Bytes)
    → p + length src ≤ length bytes
    → take (length src) (drop p (splice p src bytes)) ≡ src
taken_back p src bytes h = ground (
  arith,
  drop-take-append p bytes (src ++ drop (p + length src) bytes),
  take-append src (drop (p + length src) bytes),
)

-- Erlang answers a host call with a `write` and then the import response, as it does for functions
-- that fill a buffer: from every state that a port can reach in which it serves and a host call
-- waits with its response unanswered, both commands are taken, `ok` is the one message sent, and the
-- code that made the host call goes on with the answer's terms, converted to its results, and with a
-- memory that holds the bytes from the pointer on. The bytes lie inside the memory, which has less
-- than 65536 pages; the results have number kinds and a decoded term each; and the unassigned length
-- in the response is not positive.
pub write_seen :
    {ei : Ei} {narrow : ℕ → ℕ} {n : ℕ} {s : Port} {exports : Instance} {a : ℕ} {m : Memory}
    {types : List ValKind} (api : CallApi) (leftover : ℤ) (hook : ImportHook)
    (results : List WasmVal) (k : Reply → Run) (ts : List EiTerm) (extra : List (Cell EiTerm))
    (caller p : ℕ) (src buff buff' : Bytes) (index end : ℕ)
    → Reach ei narrow n s
    → s.phase ≡ serving
    → s.worker ≡ waiting hook results k
    → Waits s.driver leftover
    → HasMemory s.driver exports a m
    → m.pages < 65536
    → p + length src ≤ length m.bytes
    → SendsWrite ei buff p src
    → Sends ei buff' (codes "import_response") index
    → decode_list ei buff' index ≡ done (some (cells ts ++ extra), end)
    → hook.stub_func.type.results ≡ some types
    → pos_part leftover ≡ 0
    → Numbers results
    → length results ≡ length ts
    → (t : Port) × (results' : List WasmVal) × (m' : Memory) × Reach ei narrow (n + 2) t
      × (t.worker ≡ waiting hook results k)
      × (t.driver.sent ≡ s.driver.sent ++ (write_message ∷ []))
      × (resume narrow api leftover hook results k t.driver
          ≡ advance api leftover
              (k (record { trap = none; results = results' }))
              (settled t.driver))
      × Converted narrow results ts results'
      × HasMemory (settled t.driver) exports a m'
      × (take (length src) (drop p m'.bytes) ≡ src)
unfolding dispatch strcmp_eq resume store_bytes
write_seen {ei} {narrow} {n} {s} {exports} {a} {m} api leftover hook results k ts extra caller p src
      buff buff' index end r open_ waits fresh has small inside writes sends decodes typed z na
      enough =
    let terms : Terms = some (cells ts ++ extra) in
    let d₁ = written a m p src s.driver in
    let (results', goes_on, conv) =
      reply_goes_on narrow hook typed leftover results ts extra d₁ z na enough in
    let r₁ =
      later {n = n} {m = n + 1} r
        (output caller buff open_
          (write_taken ei caller buff p src s.driver exports a m has small inside writes))
        refl in
    let r₂ =
      later {n = n + 1} {m = n + 2} r₁
        (output caller buff' open_ (
          output-dispatch ei caller buff' (codes "import_response") index d₁ sends
          ∙ response_taken ei caller buff' index end leftover terms d₁ fresh decodes))
        (omega arith) in
    let has' =
      store_bytes-HasMemory has (splice p src m.bytes) (length-splice p src m.bytes inside) in
    (
      _,
      results',
      record m { bytes = splice p src m.bytes },
      r₂,
      waits,
      refl,
      rw goes_on refl,
      conv,
      record {
        instance_is = has'.instance_is;
        first_is = has'.first_is;
        held = has'.held;
        sized = has'.sized;
      },
      taken_back p src m.bytes inside,
    )
