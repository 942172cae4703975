-- ===== src/Embed/Chart.antt =====
-- struct EChart: which machines are on which host, and which networks on which switch.
use marinatb.Common.{
  Bool, nat_eq, List, [], ◌∷◌, Result, out_of_range, or_throw, find_if, if◌then◌else◌,
}
use marinatb.Common.Dict
use marinatb.Common.Dict.{Dict}
use marinatb.Ident.{Uuid}
use marinatb.Blueprint.Network.{Network}
use marinatb.Blueprint.Computer.{Computer}
use marinatb.Topo.Switch.{Switch}
use marinatb.Topo.Host
use marinatb.Topo.Host.{Host}
use marinatb.Topo.Testbed.{TestbedTopology}
use marinatb.Embed.Load.{HostEmbedding, empty_host}

-- struct SwitchEmbedding
pub record SwitchEmbedding : Type 0 where
  pub sw : Switch
  pub networks : Dict Uuid Network

pub record EChart : Type 0 where
  pub hmap : Dict Uuid HostEmbedding
  pub smap : Dict Uuid SwitchEmbedding

-- The loops of the constructor.
unfoldable pub add_hosts : Dict Uuid Host → Dict Uuid HostEmbedding → Dict Uuid HostEmbedding
add_hosts [] out = out
add_hosts ((_, h) ∷ m) out = add_hosts m (Dict.insert_or_assign (Host.id h) (empty_host h) out)

unfoldable pub add_switches :
    Dict Uuid Switch → Dict Uuid SwitchEmbedding → Dict Uuid SwitchEmbedding
add_switches [] out = out
add_switches ((_, s) ∷ m) out =
    add_switches m (Dict.insert_or_assign s.id (record { sw = s; networks = [] }) out)

-- EChart(TestbedTopology)
unfoldable pub of_topology : TestbedTopology → EChart
unfolding add_hosts add_switches
of_topology t = record { hmap = add_hosts t.hosts []; smap = add_switches t.switches [] }

abbrev pub holds : Uuid → Uuid × HostEmbedding → Bool
holds id (_, he) = Dict.contains id he.machines

-- getEmbedding(Computer)
unfoldable pub get_embedding : EChart → Computer → Result HostEmbedding
get_embedding e c = or_throw (Dict.second (find_if (holds c.id) e.hmap)) out_of_range

-- The loop of getEmbedding(Network).
switches_with : Uuid → Dict Uuid SwitchEmbedding → List SwitchEmbedding
switches_with id [] = []
switches_with id ((_, se) ∷ m) =
    if Dict.contains id se.networks then se ∷ switches_with id m else switches_with id m

unfoldable pub get_network_embedding : EChart → Network → List SwitchEmbedding
unfolding switches_with
get_network_embedding e n = switches_with n.id e.smap
