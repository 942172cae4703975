-- ===== src/Sample/Run.antt =====
-- embed on the samples.
use mathlib.Core.List.{filter_map}
use marinatb.Common.{Result, find_if, any, sequence, sum64}
use marinatb.Common.Dict
use marinatb.Sample.{thousandths, plain_pipes, plain_std}
use marinatb.Units.Memory
use marinatb.Units.Bandwidth
use marinatb.Ident
use marinatb.Blueprint.Computer
use marinatb.Blueprint.Computer.{Computer}
use marinatb.Blueprint.Store.{Blueprint}
use marinatb.Blueprint.Graph
use marinatb.Topo.Connected
use marinatb.Topo.Testbed.{TestbedTopology}
use marinatb.Embed.Load.{load, overloaded, total_of, add_machine, drop_machine, free_norm}
use marinatb.Embed.Chart.{EChart, of_topology, get_embedding}
use marinatb.Embed.Pack.{pack}
use marinatb.Embed.Fill.{freer, place, round, fill, fill_switches}
use marinatb.Embed.Algorithm.{
  collect_members, collect_networks, placement_order, switch_order, embed_computers, embed_networks,
  embed, count_members, note_network, count_switches, count_up, less_loaded,
}

-- embed, opened as far as the samples need it.
unfoldable pub run : Blueprint → TestbedTopology → Result EChart
unfolding embed embed_computers embed_networks placement_order switch_order less_loaded
    count_members sequence Graph.connected_computers filter_map Graph.neighbors Graph.facing
    Graph.computer_at Dict.find Graph.interface_of Computer.get_interface_by_mac find_if of_topology
    Dict.insert_or_assign Connected.connected_hosts Connected.visit_links Connected.visit_link
    Ident.eq Connected.insert_found Computer.has_mac Computer.hwspec Dict.contains Dict.erase any
    sum64 collect_members collect_networks note_network count_switches count_up get_embedding fill
    fill_switches freer place round add_machine drop_machine free_norm load overloaded total_of pack
    Connected.connected_switches Connected.insert_new Connected.same_host Connected.same_switch
    Connected.visit_host_link Connected.visit_host_links Bandwidth.megabits Memory.bytes
    Memory.megabytes
run b t = embed thousandths plain_pipes plain_std b (of_topology t) t
