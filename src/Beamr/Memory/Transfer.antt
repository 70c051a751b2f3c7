-- ===== src/Beamr/Memory/Transfer.antt =====
-- The `write` and `read` commands: what they do to the memory, and what they refuse.
use hyper_beam.Common.{
  ℕ, suc, ◌+◌, ◌-◌, ◌^◌, ◌≤◌, ◌<◌, ◌≡◌, refl, Bytes, ◌++◌, some, none, done, fault, arith, length,
  take, drop, get_elem?, ltb, if◌then◌else◌, pos, negsuc, lt→ltb, take-append, drop-take-append,
  length-take, length-drop, get_elem?-take, get_elem?-drop,
}
use hyper_beam.Core.Message.{codes}
use hyper_beam.Core.Runtime.{Memory, Instance}
use hyper_beam.Core.Process.{Driver}
use hyper_beam.Logging.{output_term, send_error}
use hyper_beam.Beamr.Memory.{
  add_long, copy_in, copy_out, store_bytes, write_message, write_bytes, read_message, read_bytes,
}
use hyper_beam.Beamr.Memory.Bounds.{
  HasMemory, get_memory-eq, memory_at-eq, get_memory_size-eq, store_bytes-HasMemory, splice,
  output_term-HasMemory, length-splice, get_elem?-splice,
}

-- The outcome of a `write`: `ok`, the same process, and a memory of as many pages that holds the new
-- bytes from the pointer on and what it held before everywhere else.
abbrev pub Stores : Instance → ℕ → Memory → ℕ → Bytes → Driver → Type 0
Stores exports a m p src d =
    (d' : Driver) × (m' : Memory) × (write_bytes (pos p) src d
      ≡ done (output_term write_message d'))
    × HasMemory d' exports a m'
    × (d'.proc ≡ d.proc)
    × (m'.pages ≡ m.pages)
    × ((i : ℕ)
        → get_elem? m'.bytes i ≡ (
            if ltb i p
            then get_elem? m.bytes i
            else if ltb i (p + length src)
            then get_elem? src (i - p)
            else get_elem? m.bytes i))

-- The outcome of a `read`: as many bytes as asked for, each the memory's at its place, and no
-- other change.
abbrev pub Fetches : Memory → ℕ → ℕ → Driver → Type 0
Fetches m p n d =
    (out : Bytes) × (read_bytes (pos p) (pos n) d ≡ done (output_term (read_message out n) d))
    × (length out ≡ n)
    × ((i : ℕ) → get_elem? out i ≡ (if ltb i n then get_elem? m.bytes (p + i) else none))

-- A `write` and then a `read` of the same place.
abbrev pub ReadsBack : ℕ → Bytes → Driver → Type 0
ReadsBack p src d =
    (d' : Driver) × (write_bytes (pos p) src d ≡ done d')
    × (read_bytes (pos p) (pos (length src)) d'
        ≡ done (output_term (read_message src (length src)) d'))

add_long-pos : (p n : ℕ) → p + n < 2 ^ 63 → add_long (pos p) (pos n) ≡ done (pos (p + n))
unfolding add_long
add_long-pos p n h = ground arith

module _ {d : Driver} {exports : Instance} {a : ℕ} {m : Memory} (has : HasMemory d exports a m)
    (small : m.pages < 65536) where
  -- The two branches of `write` for a pointer that is not negative.
  pub write_bytes-eq :
      (p : ℕ) (src : Bytes)
      → p + length src < 2 ^ 63
      → write_bytes (pos p) src d
        ≡ done (
            if ltb (length m.bytes) (p + length src)
            then send_error (codes "Write request out of bounds") d
            else output_term write_message (store_bytes (some a) m (splice p src m.bytes) d))
  unfolding write_bytes copy_in
  write_bytes-eq p src h =
      rw
        (get_memory_size-eq has, add_long-pos p (length src) h, get_memory-eq has, memory_at-eq has)
        (ground (arith, has.sized))

  pub read_bytes-eq :
      (p n : ℕ)
      → p + n < 2 ^ 63
      → read_bytes (pos p) (pos n) d
        ≡ done (
            if ltb (length m.bytes) (p + n)
            then send_error (codes "Read request out of bounds") d
            else output_term (read_message (take n (drop p m.bytes)) n) d)
  unfolding read_bytes copy_out
  read_bytes-eq p n h =
      rw (get_memory_size-eq has, add_long-pos p n h, get_memory-eq has, memory_at-eq has)
        (ground (arith, has.sized))

  -- A `write` whose bytes lie inside a memory of less than 65536 pages answers `ok` and stores
  -- them: the port has the same instance and a memory of as many pages, which holds the new bytes
  -- from the pointer on and what it held before everywhere else.
  pub write-inside :
      (p : ℕ) (src : Bytes) → p + length src ≤ length m.bytes → Stores exports a m p src d
  unfolding store_bytes
  write-inside p src h = (
    store_bytes (some a) m (splice p src m.bytes) d,
    record m { bytes = splice p src m.bytes },
    rw (write_bytes-eq p src (ground (arith, has.sized))) (ground arith),
    store_bytes-HasMemory has (splice p src m.bytes) (length-splice p src m.bytes h),
    refl,
    refl,
    get_elem?-splice p src m.bytes h,
  )

  -- A `write` and a `read` from a pointer that is not negative, to past the end of a memory of less
  -- than 65536 pages but to no address that a `long` does not hold, send an error and change nothing
  -- else.
  pub transfer-outside :
      (p : ℕ) (src : Bytes) (n : ℕ)
      → length m.bytes < p + length src
      → length m.bytes < p + n
      → p + length src < 2 ^ 63
      → p + n < 2 ^ 63
      → (write_bytes (pos p) src d ≡ done (send_error (codes "Write request out of bounds") d))
        × (read_bytes (pos p) (pos n) d ≡ done (send_error (codes "Read request out of bounds") d))
  transfer-outside p src n hw hr bw br =
      (rw (write_bytes-eq p src bw, lt→ltb _ _ hw), rw (read_bytes-eq p n br, lt→ltb _ _ hr))

  -- A `read` inside a memory of less than 65536 pages answers with as many bytes as it asks for,
  -- each the byte of the memory at its place, and changes nothing.
  pub read-inside : (p n : ℕ) → p + n ≤ length m.bytes → Fetches m p n d
  read-inside p n h = (
    take n (drop p m.bytes),
    rw (read_bytes-eq p n (ground (arith, has.sized))) (ground arith),
    omega (arith, length-take {0} n (drop p m.bytes), length-drop {0} p m.bytes),
    λ i. ground (arith, get_elem?-take n (drop p m.bytes) i, get_elem?-drop p m.bytes i),
  )

  -- A negative pointer passes the bounds check wherever the bytes would end inside a memory of less
  -- than 65536 pages, and `write` and `read` then access memory below it. Pointer and sizes are less
  -- than 2^32 here.
  pub transfer-negative :
      (k : ℕ) (src : Bytes) (n : ℕ)
      → length src < 2 ^ 32
      → n < 2 ^ 32
      → k < 2 ^ 32
      → length src ≤ length m.bytes + suc k
      → n ≤ length m.bytes + suc k
      → (write_bytes (negsuc k) src d ≡ fault) × (read_bytes (negsuc k) (pos n) d ≡ fault)
  unfolding write_bytes read_bytes add_long copy_in copy_out
  transfer-negative k src n bs bn bk hs hn = (
    rw (get_memory_size-eq has, get_memory-eq has, memory_at-eq has) (ground (arith, has.sized)),
    rw (get_memory_size-eq has, get_memory-eq has, memory_at-eq has) (ground (arith, has.sized)),
  )

module _ {d : Driver} {exports : Instance} {a : ℕ} {m : Memory} (has : HasMemory d exports a m)
    (small : m.pages < 65536) where
  -- In a memory of less than 65536 pages, a `write` whose bytes lie inside it succeeds, and a `read`
  -- of the same place then answers with exactly these bytes.
  pub read-write : (p : ℕ) (src : Bytes) → p + length src ≤ length m.bytes → ReadsBack p src d
  read-write p src h =
      let has' =
        output_term-HasMemory write_message
          (store_bytes-HasMemory has (splice p src m.bytes) (length-splice p src m.bytes h)) in
      (
        output_term write_message (store_bytes (some a) m (splice p src m.bytes) d),
        rw (write_bytes-eq has small p src (ground (arith, has.sized))) (ground arith),
        rw (read_bytes-eq has' small p (length src) (ground (arith, has.sized))) (
            ground (
              arith,
              length-splice p src m.bytes h,
              drop-take-append p m.bytes (src ++ drop (p + length src) m.bytes),
              take-append src (drop (p + length src) m.bytes),
            )),
      )
