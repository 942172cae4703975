-- ===== src/Units/Bandwidth.antt =====
-- class Bandwidth (core/blueprint.hxx, core/blueprint.cxx).
use marinatb.Common.{
  ℕ, String, Bool, if◌then◌else◌, nat_beq, not, shl64, shr64, ◌==◌, string_eq, Result, ok, err,
  runtime_error,
}

pub data BandwidthUnit : Type 0 where
  bps kbps mbps gbps tbps : BandwidthUnit

pub record Bandwidth : Type 0 where
  pub size : ℕ
  pub unit : BandwidthUnit

unfoldable pub parse_unit : String → Result BandwidthUnit
parse_unit s =
    if s == "bps"
    then ok bps
    else if s == "kbps"
    then ok kbps
    else if s == "mbps"
    then ok mbps
    else if s == "gbps"
    then ok gbps
    else if s == "tbps"
    then ok tbps
    else err runtime_error

unfoldable pub to_string : BandwidthUnit → String
to_string bps = "bps"
to_string kbps = "kbps"
to_string mbps = "mbps"
to_string gbps = "gbps"
to_string tbps = "tbps"

megabits_of : ℕ → BandwidthUnit → ℕ
megabits_of n bps = shr64 n 20
megabits_of n kbps = shr64 n 10
megabits_of n mbps = n
megabits_of n gbps = shl64 n 10
megabits_of n tbps = shl64 n 20

unfoldable pub megabits : Bandwidth → ℕ
unfolding megabits_of
megabits w = megabits_of w.size w.unit

-- operator ==: by the number of megabits, rounded down.
unfoldable pub eq : Bandwidth → Bandwidth → Bool
eq x y = nat_beq (megabits x) (megabits y)

unfoldable pub ne : Bandwidth → Bandwidth → Bool
unfolding eq
ne x y = not (eq x y)
