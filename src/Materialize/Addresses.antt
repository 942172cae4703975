-- ===== src/Materialize/Addresses.antt =====
-- The addresses that construct (core/materialization-service.cxx) gives to the interfaces on a network.
use marinatb.Common.{List, [], ◌∷◌, if◌then◌else◌}
use marinatb.Platform.{Inet}
use marinatb.Ip.{IpV4Address, increment, net_zero}
use marinatb.Blueprint.Interface.{Interface}
use marinatb.Blueprint.Computer.{Computer}

module _ (o : Inet) where
  -- if(a.netZero()) a++
  abbrev pub skip_net_zero : IpV4Address → IpV4Address
  skip_net_zero a = if net_zero o a then increment o a else a

  -- The loop over the computers of a network: each with its interface as it is written.
  unfoldable pub set_addresses :
      IpV4Address → List (Computer × Interface) → List (Computer × Interface)
  set_addresses a [] = []
  set_addresses a ((c, ifx) ∷ ms) =
      let here = skip_net_zero a in
      (c, record ifx { einfo = here }) ∷ set_addresses (increment o here) ms
