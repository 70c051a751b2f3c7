-- ===== src/Beamr/Output/Headers.antt =====
-- Which handler a command reaches.
use hyper_beam.Common.{ℕ, ◌≡◌, refl, Bytes, some}
use hyper_beam.Core.Process.{Driver}
use hyper_beam.Helpers.Terms.{Ei}
use hyper_beam.Beamr.Output.{dispatch, after_version, wasm_driver_output}

-- A buffer whose header reads as a version, a tuple and the name of a command, with the arguments
-- from an index on.
pub record Sends (ei : Ei) (buff command : Bytes) (index : ℕ) : Type 0 where
  pub version : ℕ
  pub behind_version : ℕ
  pub version_is : ei.decode_version buff 0 ≡ (some version, behind_version)
  pub command_is :
      ei.decode_atom buff (ei.decode_tuple_header buff behind_version).1 ≡ (some command, index)

pub output-dispatch :
    (ei : Ei) (caller : ℕ) (buff command : Bytes) (index : ℕ) (d : Driver)
    → Sends ei buff command index
    → wasm_driver_output ei caller buff d ≡ dispatch ei caller buff command index d
unfolding wasm_driver_output after_version
output-dispatch ei caller buff command index d h = rw (h.version_is, h.command_is) refl
