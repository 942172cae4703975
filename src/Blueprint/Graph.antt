-- ===== src/Blueprint/Graph.antt =====
-- class Blueprint: what is connected to what. `collect` is that of the pipes library; a function
-- that throws ends it at the first exception.
use marinatb.Common.{
  ◌==◌, nat_eq, Option, none, some, List, Result, ok, err, runtime_error, sequence, ◌>>=◌,
  if◌then◌else◌, String,
}
use marinatb.Common.Dict
use marinatb.Platform.{Pipes}
use marinatb.Ident.{Endpoint, of_id}
use marinatb.Blueprint.Interface.{Interface}
use marinatb.Blueprint.Network.{Network}
use marinatb.Blueprint.Computer.{Computer, get_interface_by_mac}
use marinatb.Blueprint.Links.{Link}
use marinatb.Blueprint.Store.{Blueprint}

-- The end of a link that faces the given one.
unfoldable pub facing : Endpoint → Link → Option Endpoint
facing e l =
    if l.first.id == e.id then some l.second else if l.second.id == e.id then some l.first else none

unfoldable pub network_at : Blueprint → Endpoint → Option Network
network_at bp e = Dict.find e.id bp.networks

-- The interface of a computer that an end of a link names.
unfoldable pub interface_of : Computer → Option String → Result (Computer × Interface)
interface_of c none = err runtime_error
interface_of c (some mac) = do i ← get_interface_by_mac c mac; ok (c, i)

computer_found : Option String → Option Computer → Option (Result (Computer × Interface))
computer_found mac none = none
computer_found mac (some c) = some (interface_of c mac)

unfoldable pub computer_at : Blueprint → Endpoint → Option (Result (Computer × Interface))
unfolding computer_found
computer_at bp e = computer_found e.mac (Dict.find e.id bp.computers)

module _ {F : Type 0} (p : Pipes F) where
  unfoldable pub neighbors : Blueprint → Endpoint → List Endpoint
  neighbors bp e = p.collect (facing e) bp.links

  unfoldable pub connected_networks : Blueprint → Computer → List Network
  connected_networks bp c = p.collect (network_at bp) (neighbors bp (of_id c.id))

  unfoldable pub connected_computers : Blueprint → Network → Result (List (Computer × Interface))
  connected_computers bp n = sequence (p.collect (computer_at bp) (neighbors bp (of_id n.id)))
