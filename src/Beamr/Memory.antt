-- ===== src/Beamr/Memory.antt =====
-- native/hb_beamr/hb_beamr.c: the memory commands of `wasm_driver_output`, `write`, `read` and
-- `size`, after the command's name is decoded.
pub mod Bounds
pub mod Transfer
use hyper_beam.Common.{
  ℕ, suc, ◌+◌, ◌-◌, ◌/◌, ◌^◌, Bytes, [], ◌∷◌, ◌++◌, Option, none, some, Outcome, done, fault, ◌>>=◌,
  ℤ, pos, negsuc, pos_part, ◌+ℤ◌, ltb_ℤ, leb, if◌then◌else◌, length, take, drop, set,
}
use hyper_beam.Core.Message.{
  codes, Slot, Message, drv_atom, drv_int, drv_buf2binary, drv_tuple, octets, word, atom_ok,
  atom_execution_result,
}
use hyper_beam.Core.Runtime.{Memory}
use hyper_beam.Core.Process.{Driver}
use hyper_beam.Helpers.Exports.{deref, get_memory, memory_at, get_memory_size}
use hyper_beam.Helpers.Terms.{Ei}
use hyper_beam.Logging.{output_term, send_error}

-- `a + b` of two `long`s; an overflow is undefined.
unfoldable pub add_long : ℤ → ℤ → Outcome ℤ
add_long a b =
    if ltb_ℤ (pos (2 ^ 63 - 1)) (a +ℤ b)
    then fault
    else if ltb_ℤ (a +ℤ b) (negsuc (2 ^ 63 - 1))
    then fault
    else done (a +ℤ b)

-- `memcpy(memory_data + ptr, src, n)`, with the `n` bytes of the source given. An access outside of
-- the memory is a fault.
unfoldable pub copy_in : Bytes → ℤ → Bytes → Outcome Bytes
copy_in bytes (negsuc _) src = fault
copy_in bytes (pos p) src =
    if leb (p + length src) (length bytes)
    then done (take p bytes ++ (src ++ drop (p + length src) bytes))
    else fault

-- `memcpy(out, memory_data + ptr, n)`; a negative size is a huge one.
unfoldable pub copy_out : Bytes → ℤ → ℤ → Outcome Bytes
copy_out bytes (negsuc _) n = fault
copy_out bytes (pos p) (negsuc _) = fault
copy_out bytes (pos p) (pos n) =
    if leb (p + n) (length bytes) then done (take n (drop p bytes)) else fault

-- The memory behind `get_memory`, and the store after its bytes have changed.
unfoldable pub store_bytes : Option ℕ → Memory → Bytes → Driver → Driver
store_bytes none m bytes d = d
store_bytes (some a) m bytes d = record d {
  memories = set d.memories a (record m { bytes = bytes });
}

unfoldable pub write_message : Message
write_message = drv_atom ∷ atom_ok ∷ []

-- The `write` command, once the pointer and the bytes are decoded.
unfoldable pub write_bytes : ℤ → Bytes → Driver → Outcome Driver
unfolding get_memory_size get_memory memory_at add_long copy_in store_bytes write_message send_error
write_bytes ptr src d = get_memory_size d >>= λ memory_size.
    add_long ptr (pos (length src)) >>= λ end.
    if ltb_ℤ (pos memory_size) end
    then done (send_error (codes "Write request out of bounds") d)
    else (get_memory d.proc >>= λ r. memory_at d.memories r >>= λ m.
        copy_in m.bytes ptr src >>= λ bytes.
        done (output_term write_message (store_bytes r m bytes d)))

unfoldable pub read_message : Bytes → ℕ → Message
read_message out n =
    drv_atom
    ∷ atom_execution_result
    ∷ drv_buf2binary
    ∷ octets out
    ∷ word n
    ∷ drv_tuple
    ∷ word 2
    ∷ []

-- The `read` command, once the pointer and the size are decoded.
unfoldable pub read_bytes : ℤ → ℤ → Driver → Outcome Driver
unfolding get_memory_size get_memory memory_at add_long copy_out read_message send_error
read_bytes ptr size d = get_memory_size d >>= λ memory_size. add_long ptr size >>= λ end.
    if ltb_ℤ (pos memory_size) end
    then done (send_error (codes "Read request out of bounds") d)
    else (get_memory d.proc >>= λ r. memory_at d.memories r >>= λ m.
        copy_out m.bytes ptr size >>= λ out.
        done (output_term (read_message out (pos_part size)) d))

module _ (ei : Ei) (buff : Bytes) where
  -- A bit string of other than whole bytes loses its last bits.
  unfoldable pub write_command : ℕ → Driver → Outcome Driver
  unfolding write_bytes
  write_command index d =
      let (_, index) = ei.decode_tuple_header buff index in
      let (ptr, index) = ei.decode_long buff index in
      let (binary, _) = ei.decode_bitstring buff index in
      deref ptr >>= λ p. deref binary >>= λ (bytes, bits).
      if leb (bits / 8) (length bytes) then write_bytes p (take (bits / 8) bytes) d else fault

  unfoldable pub read_command : ℕ → Driver → Outcome Driver
  unfolding read_bytes
  read_command index d =
      let (_, index) = ei.decode_tuple_header buff index in
      let (ptr, index) = ei.decode_long buff index in
      let (size, _) = ei.decode_long buff index in
      deref ptr >>= λ p. deref size >>= λ n. read_bytes p n d

unfoldable pub size_message : ℕ → Message
size_message size = drv_atom ∷ atom_execution_result ∷ drv_int ∷ word size ∷ drv_tuple ∷ word 2 ∷ []

unfoldable pub size_command : Driver → Outcome Driver
unfolding get_memory_size size_message
size_command d = get_memory_size d >>= λ size. done (output_term (size_message size) d)
