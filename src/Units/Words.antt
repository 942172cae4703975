-- ===== src/Units/Words.antt =====
-- The words of the units, parsed and printed.
use text.Mathlib.TextEquality.{eq_iff}
use marinatb.Common.{◌≡◌, ◌↔◌, String, ok, arith, refl, ap, ◌∙◌}
use marinatb.Units.Memory
use marinatb.Units.Memory.{MemoryUnit, b, kb, mb, gb, tb}
use marinatb.Units.Bandwidth
use marinatb.Units.Bandwidth.{BandwidthUnit, bps, kbps, mbps, gbps, tbps}
use marinatb.Units.Latency
use marinatb.Units.Latency.{LatencyUnit, ns, us, ms, s}

memory_parse : (u : MemoryUnit) → Memory.parse_unit (Memory.to_string u) ≡ ok u
unfolding Memory.parse_unit Memory.to_string
memory_parse b = refl
memory_parse kb = refl
memory_parse mb = refl
memory_parse gb = refl
memory_parse tb = refl

memory_print : (w : String) (u : MemoryUnit) → Memory.parse_unit w ≡ ok u → w ≡ Memory.to_string u
unfolding Memory.parse_unit Memory.to_string
memory_print w u h =
    ground (arith, eq_iff w "b", eq_iff w "kb", eq_iff w "mb", eq_iff w "gb", eq_iff w "tb")

-- A memory unit is parsed from a word exactly if the word is the one that the unit prints.
pub memory-parse_unit_iff :
    (w : String) (u : MemoryUnit) → (Memory.parse_unit w ≡ ok u) ↔ (w ≡ Memory.to_string u)
memory-parse_unit_iff w u = (memory_print w u, λ e. ap Memory.parse_unit e ∙ memory_parse u)

bandwidth_parse : (u : BandwidthUnit) → Bandwidth.parse_unit (Bandwidth.to_string u) ≡ ok u
unfolding Bandwidth.parse_unit Bandwidth.to_string
bandwidth_parse bps = refl
bandwidth_parse kbps = refl
bandwidth_parse mbps = refl
bandwidth_parse gbps = refl
bandwidth_parse tbps = refl

bandwidth_print :
    (w : String) (u : BandwidthUnit) → Bandwidth.parse_unit w ≡ ok u → w ≡ Bandwidth.to_string u
unfolding Bandwidth.parse_unit Bandwidth.to_string
bandwidth_print w u h =
    ground
      (arith, eq_iff w "bps", eq_iff w "kbps", eq_iff w "mbps", eq_iff w "gbps", eq_iff w "tbps")

-- A bandwidth unit is parsed from a word exactly if the word is the one that the unit prints.
pub bandwidth-parse_unit_iff :
    (w : String) (u : BandwidthUnit) → (Bandwidth.parse_unit w ≡ ok u) ↔ (w ≡ Bandwidth.to_string u)
bandwidth-parse_unit_iff w u =
    (bandwidth_print w u, λ e. ap Bandwidth.parse_unit e ∙ bandwidth_parse u)

latency_parse : (u : LatencyUnit) → Latency.parse_unit (Latency.to_string u) ≡ ok u
unfolding Latency.parse_unit Latency.to_string
latency_parse ns = refl
latency_parse us = refl
latency_parse ms = refl
latency_parse s = refl

latency_print :
    (w : String) (u : LatencyUnit) → Latency.parse_unit w ≡ ok u → w ≡ Latency.to_string u
unfolding Latency.parse_unit Latency.to_string
latency_print w u h = ground (arith, eq_iff w "ns", eq_iff w "us", eq_iff w "ms", eq_iff w "s")

-- A latency unit is parsed from a word exactly if the word is the one that the unit prints.
pub latency-parse_unit_iff :
    (w : String) (u : LatencyUnit) → (Latency.parse_unit w ≡ ok u) ↔ (w ≡ Latency.to_string u)
latency-parse_unit_iff w u = (latency_print w u, λ e. ap Latency.parse_unit e ∙ latency_parse u)
