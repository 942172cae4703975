-- ===== src/Blueprint/Examples.antt =====
-- The theorems about blueprints at the sample.
use marinatb.Common.{nat_eq, ◌≡◌, refl, ok, err, out_of_range, [], ◌∷◌, ◌++◌, find_if, arith, ◌>>=◌}
use marinatb.Common.Dict
use marinatb.Common.Dict.{Unique}
use marinatb.Sample.{plain_pipes, plain_pipes-laws}
use marinatb.Sample.Site.{pair_blueprint, node_a, lan, interface}
use marinatb.Blueprint.Network.{Network}
use marinatb.Blueprint.Computer.{get_interface_by_mac}
use marinatb.Blueprint.Store.{get_computer, get_network, remove_computer, remove_network, connect}
use marinatb.Blueprint.Graph.{connected_computers}
use marinatb.Sample.{little_endian}
use marinatb.Blueprint.Store.{Blueprint, create, computer}
use marinatb.Blueprint.Reachable.{Reachable, created, with_computer, Reachable-removes}
use marinatb.Blueprint.Connecting.{connected_computers-connect}

computers-Unique : Unique pair_blueprint.computers
unfolding Dict.find
computers-Unique = (refl, (refl, tt))

abbrev other_lan : Network
other_lan = record lan { name = "other"; id = 13 }

connected_computers-connect_example :
    (connected_computers plain_pipes
        (connect pair_blueprint (node_a, interface "eth0" "a1" 1) other_lan)
        other_lan
      ≡ (do
        cs ← connected_computers plain_pipes pair_blueprint other_lan
        ok (cs ++ (node_a, interface "eth0" "a1" 1) ∷ [])))
    × (connected_computers plain_pipes
          (connect pair_blueprint (node_a, interface "eth0" "a1" 1) other_lan)
          lan
        ≡ connected_computers plain_pipes pair_blueprint lan)
unfolding Dict.find get_interface_by_mac find_if
connected_computers-connect_example =
    connected_computers-connect plain_pipes plain_pipes-laws pair_blueprint node_a
      (interface "eth0" "a1" 1) (interface "eth0" "a1" 1) other_lan lan refl refl
      (λ e. absurd (omega arith)) (λ e. absurd (omega arith)) (λ e. absurd (omega arith))

-- A blueprint that two operations make.
abbrev made : Blueprint
made = (computer (computer (create "pair" 1) "a" 11 "a0").0 "b" 12 "b0").0

made-Reachable : Reachable little_endian made
made-Reachable = with_computer "b" 12 "b0" (with_computer "a" 11 "a0" (created "pair" 1))

Reachable-removes_example :
    (get_computer (remove_computer made "a") "a" ≡ err out_of_range)
    × (get_network (remove_network made "a") "a" ≡ err out_of_range)
Reachable-removes_example = Reachable-removes little_endian made "a" made-Reachable
