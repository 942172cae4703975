-- ===== src/Blueprint/Network.antt =====
-- class Network. Its default address space is parsed from a literal, which throws if that fails.
use marinatb.Common.{ℕ, String, Bool, not, ◌&&◌, ◌==◌, string_eq, nat_eq, Result, ok, ◌>>=◌}
use marinatb.Platform.{Double, Inet}
use marinatb.Units.Bandwidth
use marinatb.Units.Bandwidth.{Bandwidth, mbps}
use marinatb.Units.Latency
use marinatb.Units.Latency.{Latency, ms}
use marinatb.Ip.{IpV4Address, of_string}
use marinatb.Ident.{Uuid}

pub record Network : Type 0 where
  pub name : String
  pub bandwidth : Bandwidth
  pub latency : Latency
  pub ipv4space : IpV4Address
  pub id : Uuid

-- name, capacity and latency with an argument
unfoldable pub set_name : Network → String → Network
set_name n name = record n { name = name }

unfoldable pub set_capacity : Network → Bandwidth → Network
set_capacity n x = record n { bandwidth = x }

unfoldable pub set_latency : Network → Latency → Network
set_latency n x = record n { latency = x }

module _ (o : Inet) where
  -- Network(string), with its new id
  unfoldable pub create : String → Uuid → Result Network
  create name id = do
    space ← of_string o "10.10.0.0" 16
    ok (record {
      name = name;
      bandwidth = record { size = 100; unit = mbps };
      latency = record { size = 0; unit = ms };
      ipv4space = space;
      id = id;
    })

  -- Network & ipv4(string, uint32_t)
  unfoldable pub set_ipv4 : Network → String → ℕ → Result Network
  set_ipv4 n addr mask = do space ← of_string o addr mask; ok (record n { ipv4space = space })

  -- clone: the address space of the copy is the default one.
  unfoldable pub clone : Network → Uuid → Result Network
  unfolding create
  clone n fresh = do
    m ← create n.name fresh
    ok (record m { latency = n.latency; bandwidth = n.bandwidth; id = n.id })

module _ {F : Type 0} (d : Double F) where
  unfoldable pub eq : Network → Network → Bool
  eq a b =
      a.name == b.name
      && Bandwidth.eq a.bandwidth b.bandwidth
      && Latency.eq d a.latency b.latency
      && a.id == b.id

  unfoldable pub ne : Network → Network → Bool
  ne a b = not (eq a b)
