-- ===== src/Json/Wholes.antt =====
-- Blueprints and topologies as JSON (core/blueprint.cxx, core/topo.cxx).
use marinatb.Common.{[], ◌∷◌, map, Result, ok, ◌>>=◌, string_eq, nat_eq}
use marinatb.Platform.{JsonLib, UuidLib, Inet}
use marinatb.Blueprint.Store.{Blueprint}
use marinatb.Topo.Switch
use marinatb.Topo.Switch.{Switch, allocated_backplane}
use marinatb.Topo.Host
use marinatb.Topo.Host.{Host}
use marinatb.Topo.Testbed.{TbLink, TestbedTopology}
use marinatb.Json.Object.{object, extract, extract_string, extract_size, Supply, sub}
use marinatb.Json.Values.{
  of_memory, to_memory, of_bandwidth, to_bandwidth, of_uuid, to_uuid, of_endpoint, to_endpoint,
}
use marinatb.Json.Parts.{
  into_map, into_list, values_json, of_interface, to_interface, of_network, to_network, of_computer,
  to_computer, of_link, to_link,
}

module _ {J : Type 0} (l : JsonLib J) (u : UuidLib) where
  open l use {of_string, of_size, of_array}

  unfoldable pub of_blueprint : Blueprint → J
  of_blueprint b = object l (
      ("name", of_string b.name)
      ∷ ("networks", of_array (values_json (of_network l u) b.networks))
      ∷ ("computers", of_array (values_json (of_computer l u) b.computers))
      ∷ ("links", of_array (map (of_link l u) b.links))
      ∷ ("id", of_uuid l u b.id)
      ∷ [])

  unfoldable pub to_blueprint : Inet → Supply → J → Result Blueprint
  to_blueprint o s j = do
    name ← extract_string l j "name"
    id_j ← extract l j "id"
    id ← to_uuid l u (sub s 0) id_j
    computers_j ← extract l j "computers"
    computers ← into_map (to_computer l u) (λ c. c.id) (sub s 1) 0 (l.elements computers_j) []
    networks_j ← extract l j "networks"
    networks ← into_map (to_network l u o) (λ n. n.id) (sub s 2) 0 (l.elements networks_j) []
    links_j ← extract l j "links"
    links ← into_list (to_link l u) (sub s 3) 0 (l.elements links_j)
    ok (record { name = name; id = id; computers = computers; networks = networks; links = links })

  -- The id of a switch is not written, and a new one is drawn when it is read.
  unfoldable pub of_switch : Switch → J
  of_switch x = object l (
      ("name", of_string x.name)
      ∷ ("backplane", of_bandwidth l x.backplane)
      ∷ ("allocated-backplane", of_bandwidth l (allocated_backplane x))
      ∷ ("networks", of_array (map (of_network l u) x.networks))
      ∷ [])

  unfoldable pub to_switch : Inet → Supply → J → Result Switch
  to_switch o s j = do
    name ← extract_string l j "name"
    backplane_j ← extract l j "backplane"
    backplane ← to_bandwidth l backplane_j
    njs ← extract l j "networks"
    networks ← into_list (to_network l u o) (sub s 0) 0 (l.elements njs)
    ok (record (Switch.create name (s []).id) { backplane = backplane; networks = networks })

  -- Neither the id nor the operating system of a host is written; a new id is drawn when it is read.
  unfoldable pub of_host : Host → J
  of_host h = object l (
      ("name", of_string (Host.name h))
      ∷ ("cores", of_size h.host_comp.cores)
      ∷ ("memory", of_memory l h.host_comp.memory)
      ∷ ("disk", of_memory l h.host_comp.disk)
      ∷ ("machines", of_array (map (of_computer l u) h.machines))
      ∷ ("interfaces", of_array (values_json (of_interface l) h.host_comp.interfaces))
      ∷ [])

  unfoldable pub to_host : Supply → J → Result Host
  to_host s j = do
    name ← extract_string l j "name"
    let made = Host.create name (s []).id (s []).mac (s (0 ∷ [])).mac
    cores ← extract_size l j "cores"
    memory_j ← extract l j "memory"
    memory ← to_memory l memory_j
    disk_j ← extract l j "disk"
    disk ← to_memory l disk_j
    ifxs ← extract l j "interfaces"
    interfaces ←
        into_map (to_interface l) (λ i. i.name) (sub s 1) 0 (l.elements ifxs)
          made.host_comp.interfaces
    xpns ← extract l j "machines"
    machines ← into_list (to_computer l u) (sub s 2) 0 (l.elements xpns)
    ok (record {
      host_comp = record made.host_comp {
        cores = cores;
        memory = memory;
        disk = disk;
        interfaces = interfaces;
      };
      machines = machines;
    })

  unfoldable pub of_tb_link : TbLink → J
  of_tb_link x = object l (
      ("endpoints", of_array (of_endpoint l u x.first ∷ of_endpoint l u x.second ∷ []))
      ∷ ("capacity", of_bandwidth l x.capacity)
      ∷ [])

  unfoldable pub to_tb_link : Supply → J → Result TbLink
  to_tb_link s j = do
    eps ← l.at j "endpoints"
    first_j ← l.at_index eps 0
    first ← to_endpoint l u (sub s 0) first_j
    second_j ← l.at_index eps 1
    second ← to_endpoint l u (sub s 1) second_j
    capacity_j ← l.at j "capacity"
    capacity ← to_bandwidth l capacity_j
    ok (record { first = first; second = second; capacity = capacity })

  unfoldable pub of_topology : TestbedTopology → J
  of_topology t = object l (
      ("name", of_string t.name)
      ∷ ("switches", of_array (values_json of_switch t.switches))
      ∷ ("hosts", of_array (values_json of_host t.hosts))
      ∷ ("links", of_array (map of_tb_link t.links))
      ∷ [])

  unfoldable pub to_topology : Inet → Supply → J → Result TestbedTopology
  to_topology o s j = do
    name_j ← l.at j "name"
    name ← l.get_string name_j
    hosts_j ← l.at j "hosts"
    hosts ← into_map to_host Host.id (sub s 0) 0 (l.elements hosts_j) []
    switches_j ← l.at j "switches"
    switches ← into_map (to_switch o) (λ x. x.id) (sub s 1) 0 (l.elements switches_j) []
    links_j ← l.at j "links"
    links ← into_list to_tb_link (sub s 2) 0 (l.elements links_j)
    ok (record { name = name; switches = switches; hosts = hosts; links = links })
