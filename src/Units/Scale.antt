-- ===== src/Units/Scale.antt =====
-- The conversions of sizes between units.
use marinatb.Common.{ℕ, ◌*◌, ◌/◌, ◌^◌, ◌<◌, ◌≡◌, arith, size_mod}
use marinatb.Units.Memory
use marinatb.Units.Memory.{Memory, MemoryUnit, b, kb, mb, gb, tb}

-- The number of bytes in one of a unit.
abbrev pub unit_bytes : MemoryUnit → ℕ
unit_bytes b = 1
unit_bytes kb = 2 ^ 10
unit_bytes mb = 2 ^ 20
unit_bytes gb = 2 ^ 30
unit_bytes tb = 2 ^ 40

scale_at :
    (n : ℕ) (u : MemoryUnit)
    → n * unit_bytes u < size_mod
    → let m : Memory = record { size = n; unit = u } in
      (Memory.bytes m ≡ n * unit_bytes u) × (Memory.megabytes m ≡ n * unit_bytes u / 2 ^ 20)
unfolding Memory.bytes Memory.megabytes
scale_at n b h = omega arith
scale_at n kb h = omega arith
scale_at n mb h = omega arith
scale_at n gb h = omega arith
scale_at n tb h = omega arith

-- Where the number of bytes of a size fits a `size_t`, `bytes` is that number and `megabytes` is
-- that number over 2 ^ 20, rounded down, whatever the unit.
pub bytes-megabytes :
    (m : Memory)
    → m.size * unit_bytes m.unit < size_mod
    → (Memory.bytes m ≡ m.size * unit_bytes m.unit) × (Memory.megabytes m ≡ Memory.bytes m / 2 ^ 20)
bytes-megabytes m h = let (p, q) = scale_at m.size m.unit h in (p, omega (arith, p, q))
