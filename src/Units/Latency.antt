-- ===== src/Units/Latency.antt =====
-- class Latency (core/blueprint.hxx, core/blueprint.cxx). Its comparison is in floating point.
use marinatb.Common.{
  ℕ, String, Bool, if◌then◌else◌, not, ◌==◌, string_eq, Result, ok, err, runtime_error,
}
use marinatb.Platform.{Double}

pub data LatencyUnit : Type 0 where
  ns us ms s : LatencyUnit

pub record Latency : Type 0 where
  pub size : ℕ
  pub unit : LatencyUnit

unfoldable pub parse_unit : String → Result LatencyUnit
parse_unit word =
    if word == "ns"
    then ok ns
    else if word == "us"
    then ok us
    else if word == "ms"
    then ok ms
    else if word == "s"
    then ok s
    else err runtime_error

unfoldable pub to_string : LatencyUnit → String
to_string ns = "ns"
to_string us = "us"
to_string ms = "ms"
to_string s = "s"

module _ {F : Type 0} (d : Double F) where
  open d use {of_nat, div, mul, sub, fabs, lt, epsilon}

  to_ms_of : ℕ → LatencyUnit → F
  to_ms_of n ns = div (of_nat n) (of_nat 1_000_000)
  to_ms_of n us = div (of_nat n) (of_nat 1_000)
  to_ms_of n ms = of_nat n
  to_ms_of n s = mul (of_nat n) (of_nat 1_000)

  unfoldable pub to_ms : Latency → F
  unfolding to_ms_of
  to_ms x = to_ms_of x.size x.unit

  unfoldable pub eq : Latency → Latency → Bool
  eq x y = lt (fabs (sub (to_ms x) (to_ms y))) epsilon

  unfoldable pub ne : Latency → Latency → Bool
  unfolding eq
  ne x y = not (eq x y)
