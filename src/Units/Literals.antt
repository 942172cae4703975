-- ===== src/Units/Literals.antt =====
-- The literals of units (core/blueprint.cxx): 4_gb is of_gb 4.
use marinatb.Common.{ℕ}
use marinatb.Units.Memory.{Memory, b, kb, mb, gb, tb}
use marinatb.Units.Bandwidth.{Bandwidth, bps, kbps, mbps, gbps, tbps}
use marinatb.Units.Latency.{Latency, ns, us, ms, s}

unfoldable pub of_b : ℕ → Memory
of_b x = record { size = x; unit = b }

unfoldable pub of_kb : ℕ → Memory
of_kb x = record { size = x; unit = kb }

unfoldable pub of_mb : ℕ → Memory
of_mb x = record { size = x; unit = mb }

unfoldable pub of_gb : ℕ → Memory
of_gb x = record { size = x; unit = gb }

unfoldable pub of_tb : ℕ → Memory
of_tb x = record { size = x; unit = tb }

unfoldable pub of_bps : ℕ → Bandwidth
of_bps x = record { size = x; unit = bps }

unfoldable pub of_kbps : ℕ → Bandwidth
of_kbps x = record { size = x; unit = kbps }

unfoldable pub of_mbps : ℕ → Bandwidth
of_mbps x = record { size = x; unit = mbps }

unfoldable pub of_gbps : ℕ → Bandwidth
of_gbps x = record { size = x; unit = gbps }

unfoldable pub of_tbps : ℕ → Bandwidth
of_tbps x = record { size = x; unit = tbps }

unfoldable pub of_ns : ℕ → Latency
of_ns x = record { size = x; unit = ns }

unfoldable pub of_us : ℕ → Latency
of_us x = record { size = x; unit = us }

unfoldable pub of_ms : ℕ → Latency
of_ms x = record { size = x; unit = ms }

unfoldable pub of_s : ℕ → Latency
of_s x = record { size = x; unit = s }
