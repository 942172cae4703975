-- ===== src/Units/Memory.antt =====
-- class Memory (core/blueprint.hxx, core/blueprint.cxx). A size is a `size_t`.
use Prim.Native.String.{◌++◌}
use marinatb.Common.{
  ℕ, String, Bool, if◌then◌else◌, ltb, nat_beq, not, shl64, shr64, ◌==◌, string_eq, Result, ok, err,
  runtime_error,
}

pub data MemoryUnit : Type 0 where
  b kb mb gb tb : MemoryUnit

pub record Memory : Type 0 where
  pub size : ℕ
  pub unit : MemoryUnit

unfoldable pub parse_unit : String → Result MemoryUnit
parse_unit s =
    if s == "b"
    then ok b
    else if s == "kb"
    then ok kb
    else if s == "mb"
    then ok mb
    else if s == "gb"
    then ok gb
    else if s == "tb"
    then ok tb
    else err runtime_error

unfoldable pub to_string : MemoryUnit → String
to_string b = "b"
to_string kb = "kb"
to_string mb = "mb"
to_string gb = "gb"
to_string tb = "tb"

bytes_of : ℕ → MemoryUnit → ℕ
bytes_of n b = n
bytes_of n kb = shl64 n 10
bytes_of n mb = shl64 n 20
bytes_of n gb = shl64 n 30
bytes_of n tb = shl64 n 40

unfoldable pub bytes : Memory → ℕ
unfolding bytes_of
bytes m = bytes_of m.size m.unit

megabytes_of : ℕ → MemoryUnit → ℕ
megabytes_of n b = shr64 n 20
megabytes_of n kb = shr64 n 10
megabytes_of n mb = n
megabytes_of n gb = shl64 n 10
megabytes_of n tb = shl64 n 20

unfoldable pub megabytes : Memory → ℕ
unfolding megabytes_of
megabytes m = megabytes_of m.size m.unit

-- operator == and operator <: by the size in bytes.
unfoldable pub eq : Memory → Memory → Bool
eq x y = nat_beq (bytes x) (bytes y)

unfoldable pub ne : Memory → Memory → Bool
unfolding eq
ne x y = not (eq x y)

unfoldable pub lt : Memory → Memory → Bool
lt x y = ltb (bytes x) (bytes y)

-- std::to_string of a memory; the digits of a number are the argument.
unfoldable pub text : (ℕ → String) → Memory → String
text decimal m = decimal m.size ++ to_string m.unit
