-- ===== src/Beamr/Memory/Bounds.antt =====
-- The memory of a port as the memory commands reach it, and its size.
use hyper_beam.Common.{
  ℕ, zero, suc, ◌+◌, ◌-◌, ◌*◌, ◌%◌, ◌^◌, ◌≤◌, ◌<◌, ◌≡◌, Bytes, List, [], ◌∷◌, ◌++◌, some, stored,
  done, arith, length, take, drop, get_elem?, length-append, length-take, length-drop,
  get_elem?-append, get_elem?-take, get_elem?-drop, get_elem?-set_self, ltb, if◌then◌else◌,
}
use hyper_beam.Core.Message.{Message}
use hyper_beam.Logging.{output_term}
use hyper_beam.Core.Runtime.{Memory, Instance}
use hyper_beam.Core.Process.{Driver}
use hyper_beam.Helpers.Exports.{first_memory, get_memory, memory_at, get_memory_size}
use hyper_beam.Beamr.Memory.{store_bytes}

-- The port has an instance whose first exported memory is `m`, at the address `a` of the store; a
-- page has 65536 bytes.
pub record HasMemory (d : Driver) (exports : Instance) (a : ℕ) (m : Memory) : Type 0 where
  pub instance_is : d.proc.instance_ ≡ stored (some exports)
  pub first_is : first_memory exports ≡ some a
  pub held : get_elem? d.memories a ≡ some m
  pub sized : length m.bytes ≡ m.pages * 65536

lt_of_get_elem? {ℓ} :
    {A : Type ℓ} {x : A} (xs : List A) (i : ℕ) → get_elem? xs i ≡ some x → i < length xs
lt_of_get_elem? [] i h = cc
lt_of_get_elem? (y ∷ ys) zero h = omega arith
lt_of_get_elem? (y ∷ ys) (suc i) h = omega (arith, lt_of_get_elem? ys i h)

module _ {d : Driver} {exports : Instance} {a : ℕ} {m : Memory}
    (has : HasMemory d exports a m) where
  pub get_memory-eq : get_memory d.proc ≡ done (some a)
  unfolding get_memory
  get_memory-eq = rw (has.instance_is, has.first_is)

  pub memory_at-eq : memory_at d.memories (some a) ≡ done m
  unfolding memory_at
  memory_at-eq = rw has.held

  pub get_memory_size-eq : get_memory_size d ≡ done (m.pages * 65536 % 2 ^ 32)
  unfolding get_memory_size
  get_memory_size-eq = rw (get_memory-eq, memory_at-eq)

  -- The size that the driver sees is the number of bytes for a memory of less than 65536 pages; at
  -- 65536 pages, the largest that WebAssembly allows, it is 0.
  pub get_memory_size_lem :
      m.pages ≤ 65536 → get_memory_size d ≡ done (if ltb m.pages 65536 then length m.bytes else 0)
  get_memory_size_lem le = ground (arith, get_memory_size-eq, has.sized)

  -- A store of as many bytes keeps the memory in its place.
  pub store_bytes-HasMemory :
      (bytes : Bytes)
      → length bytes ≡ length m.bytes
      → HasMemory (store_bytes (some a) m bytes d) exports a (record m { bytes = bytes })
  unfolding store_bytes
  store_bytes-HasMemory bytes same = record {
    instance_is = has.instance_is;
    first_is = has.first_is;
    held = get_elem?-set_self d.memories a _ (lt_of_get_elem? d.memories a has.held);
    sized = omega (arith, has.sized);
  }

-- A message changes nothing of the memory.
pub output_term-HasMemory :
    {d : Driver} {exports : Instance} {a : ℕ} {m : Memory} (msg : Message)
    → HasMemory d exports a m
    → HasMemory (output_term msg d) exports a m
output_term-HasMemory msg has = record {
  instance_is = has.instance_is;
  first_is = has.first_is;
  held = has.held;
  sized = has.sized;
}

-- What `memcpy` into the memory leaves there.
abbrev pub splice : ℕ → Bytes → Bytes → Bytes
splice p src bytes = take p bytes ++ (src ++ drop (p + length src) bytes)

module _ (p : ℕ) (src bytes : Bytes) (inside : p + length src ≤ length bytes) where
  pub length-splice : length (splice p src bytes) ≡ length bytes
  length-splice = omega (
    arith,
    length-append {0} (take p bytes) (src ++ drop (p + length src) bytes),
    length-append {0} src (drop (p + length src) bytes),
    length-take {0} p bytes,
    length-drop {0} (p + length src) bytes,
  )

  pub get_elem?-splice :
      (i : ℕ)
      → get_elem? (splice p src bytes) i ≡ (
          if ltb i p
          then get_elem? bytes i
          else if ltb i (p + length src)
          then get_elem? src (i - p)
          else get_elem? bytes i)
  get_elem?-splice i = ground (
    arith,
    get_elem?-append (take p bytes) (src ++ drop (p + length src) bytes) i,
    get_elem?-append src (drop (p + length src) bytes) (i - length (take p bytes)),
    length-take {0} p bytes,
    get_elem?-take p bytes i,
    get_elem?-drop (p + length src) bytes (i - length (take p bytes) - length src),
  )
