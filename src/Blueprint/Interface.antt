-- ===== src/Blueprint/Interface.antt =====
-- class Interface. `generate_mac` draws from the random device: the new address is an argument.
use marinatb.Common.{String, Bool, not, ◌&&◌, ◌==◌, string_eq}
use marinatb.Platform.{Double}
use marinatb.Units.Bandwidth
use marinatb.Units.Bandwidth.{Bandwidth, gbps}
use marinatb.Units.Latency
use marinatb.Units.Latency.{Latency, ms}
use marinatb.Ip.{IpV4Address, unset}

-- `einfo` is the EmbeddingInfo, whose one member is the address.
pub record Interface : Type 0 where
  pub name : String
  pub mac : String
  pub latency : Latency
  pub einfo : IpV4Address
  pub capacity : Bandwidth

-- Interface(string)
unfoldable pub create : String → String → Interface
create name mac = record {
  name = name;
  mac = mac;
  latency = record { size = 0; unit = ms };
  einfo = unset;
  capacity = record { size = 1; unit = gbps };
}

-- name, latency and capacity with an argument
unfoldable pub set_name : Interface → String → Interface
set_name i x = record i { name = x }

unfoldable pub set_latency : Interface → Latency → Interface
set_latency i x = record i { latency = x }

unfoldable pub set_capacity : Interface → Bandwidth → Interface
set_capacity i x = record i { capacity = x }

-- clone: the address of the EmbeddingInfo is not copied.
unfoldable pub clone : Interface → Interface
unfolding create
clone i = record (create i.name i.mac) { latency = i.latency; capacity = i.capacity }

-- operator ==: neither the MAC nor the IP address is compared.
module _ {F : Type 0} (d : Double F) where
  unfoldable pub eq : Interface → Interface → Bool
  eq a b =
      a.name == b.name && Latency.eq d a.latency b.latency && Bandwidth.eq a.capacity b.capacity

  unfoldable pub ne : Interface → Interface → Bool
  ne a b = not (eq a b)
