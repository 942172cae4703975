-- ===== src/Blueprint/Links.antt =====
-- struct Link: the two ends of a connection, `endpoints[0]` and `endpoints[1]`.
use marinatb.Ident.{Endpoint, of_id, of_mac}
use marinatb.Blueprint.Interface.{Interface}
use marinatb.Blueprint.Network.{Network}
use marinatb.Blueprint.Computer.{Computer}

pub record Link : Type 0 where
  pub first : Endpoint
  pub second : Endpoint

-- Link(pair<Computer, Interface>, Network), and the constructor with the arguments swapped
unfoldable pub of_computer : Computer × Interface → Network → Link
of_computer (c, i) n = record { first = of_mac c.id i.mac; second = of_id n.id }

-- Link(Network, Network)
unfoldable pub of_networks : Network → Network → Link
of_networks a b = record { first = of_id a.id; second = of_id b.id }
