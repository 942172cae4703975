-- ===== src/Units/Examples.antt =====
-- The theorems about units at concrete sizes and words.
use marinatb.Common.{◌≡◌, ◌*◌, ◌/◌, ◌^◌, arith}
use marinatb.Units.Memory
use marinatb.Units.Memory.{Memory, gb}
use marinatb.Units.Scale.{unit_bytes, bytes-megabytes}

abbrev four_gb : Memory
four_gb = record { size = 4; unit = gb }

bytes-megabytes_example :
    (Memory.bytes four_gb ≡ 4 * unit_bytes gb)
    × (Memory.megabytes four_gb ≡ Memory.bytes four_gb / 2 ^ 20)
bytes-megabytes_example = bytes-megabytes four_gb (omega arith)
