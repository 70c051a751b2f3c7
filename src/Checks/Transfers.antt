-- ===== src/Checks/Transfers.antt =====
-- Writes and reads of the memory of a port.
use hyper_beam.Common.{
  ◌≡◌, Bytes, [], ◌∷◌, done, fault, pos, negsuc, arith, length, ltb, if◌then◌else◌,
}
use hyper_beam.Core.Message.{codes}
use hyper_beam.Helpers.Exports.{get_memory_size}
use hyper_beam.Logging.{send_error}
use hyper_beam.Beamr.Memory.{write_bytes, read_bytes}
use hyper_beam.Beamr.Memory.Bounds.{get_memory_size_lem}
use hyper_beam.Beamr.Memory.Transfer.{ReadsBack, transfer-outside, transfer-negative, read-write}
use hyper_beam.Checks.Data.{page, driver, driver-HasMemory}

abbrev src : Bytes
src = 1 ∷ 2 ∷ 3 ∷ []

get_memory_size_lem_example :
    get_memory_size driver ≡ done (if ltb 1 65536 then length page.bytes else 0)
get_memory_size_lem_example = get_memory_size_lem driver-HasMemory (omega arith)

read-write_example : ReadsBack 100 src driver
read-write_example =
    read-write driver-HasMemory (omega arith) 100 src (omega (arith, driver-HasMemory.sized))

transfer-outside_example :
    (write_bytes (pos 65534) src driver
      ≡ done (send_error (codes "Write request out of bounds") driver))
    × (read_bytes (pos 65534) (pos 3) driver
        ≡ done (send_error (codes "Read request out of bounds") driver))
transfer-outside_example =
    transfer-outside driver-HasMemory (omega arith) 65534 src 3
      (omega (arith, driver-HasMemory.sized)) (omega (arith, driver-HasMemory.sized)) (omega arith)
      (omega arith)

transfer-negative_example :
    (write_bytes (negsuc 3) src driver ≡ fault) × (read_bytes (negsuc 3) (pos 2) driver ≡ fault)
transfer-negative_example =
    transfer-negative driver-HasMemory (omega arith) 3 src 2 (omega arith) (omega arith)
      (omega arith) (omega (arith, driver-HasMemory.sized)) (omega (arith, driver-HasMemory.sized))
