-- ===== src/Core/Message.antt =====
-- Messages for `erl_drv_output_term`: arrays of `ErlDrvTermData`, and the terms that they denote.
use Prim.Native.Char.{code}
use Prim.Native.String.{String}
use hyper_beam.Common.{ℕ, Bytes, List, [], ◌∷◌}

-- The code points of a text: its bytes, as it is ASCII.
abbrev pub codes : String → Bytes
codes String.[] = []
codes (String.◌∷◌ c s) = code c ∷ codes s

-- One `ErlDrvTermData`: a tag `ERL_DRV_...`, or the operand of one. `word` is an unsigned number of
-- 64 bits, `chars` a pointer to text, `octets` one to a binary, and `value_at` a pointer to eight
-- bytes, given by what they hold.
pub data Slot : Type 0 where
  drv_atom drv_string drv_nil drv_list drv_tuple drv_int drv_int64 drv_float drv_buf2binary : Slot
  atom_of : Bytes → Slot
  chars : Bytes → Slot
  octets : Bytes → Slot
  value_at : ℕ → Slot
  word : ℕ → Slot

abbrev pub Message : Type 0
Message = List Slot

-- `DRIVER_INIT`: the atoms that the driver sends.
abbrev pub atom_ok : Slot
atom_ok = atom_of (codes "ok")

abbrev pub atom_error : Slot
atom_error = atom_of (codes "error")

abbrev pub atom_import : Slot
atom_import = atom_of (codes "import")

abbrev pub atom_execution_result : Slot
atom_execution_result = atom_of (codes "execution_result")
