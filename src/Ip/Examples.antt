-- ===== src/Ip/Examples.antt =====
-- The theorems about addresses at concrete addresses.
use marinatb.Ip.{IpV4Address}

-- 10.10.0.0/16 in network byte order
abbrev base : IpV4Address
base = record { addr = 2570; mask = 16 }
