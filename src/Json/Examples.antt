-- ===== src/Json/Examples.antt =====
-- The sample blueprint and the sample site as JSON.
use mathlib.Core.Option.{some-injective}
use marinatb.Common.{
  ◌≡◌, refl, [], ◌∷◌, ok, err, undefined, arith, String, some, none, subst, ◌<◌, ◌^◌, ◌==◌,
  string_eq, Bool-cases, inl, inr,
}
use marinatb.Units.Bandwidth.{gbps}
use marinatb.Units.Latency.{ms}
use marinatb.Blueprint.Store.{Blueprint, create, computer}
use marinatb.Blueprint.Edits.{computer_edited, interface_added, computer_memory}
use marinatb.Blueprint.Reachable.{Reachable, created, with_computer, with_computer_edit}
use marinatb.Json.InRange.{PtonInRange}
use marinatb.Json.Made.{InRange, to_blueprint-Reachable}
use marinatb.Common.Dict
use marinatb.Sample.{
  thousandths, plain_pipes, plain_pipes-laws, plain_std, plain_std-laws, little_endian,
}
use marinatb.Sample.Trees.{trees, trees-laws, unary, unary-laws}
use marinatb.Sample.Site.{pair_blueprint, small_site, leaf, interface, machine}
use marinatb.Ip.{of_string}
use marinatb.Json.Object.{Supply, Draw}
use marinatb.Json.WholeLaws.{stored_blueprint, to_blueprint-of_blueprint}
use marinatb.Json.Wholes.{of_blueprint, to_blueprint, of_topology, to_topology}
use marinatb.Ident.{Uuid}
use marinatb.Units.Memory.{gb}
use marinatb.Topo.Host.{Host}
use marinatb.Topo.Testbed.{TestbedTopology}
use marinatb.Embed.Chart
use marinatb.Embed.Algorithm.{placement_order}
use marinatb.Sample.Run.{run}
use marinatb.Sample.Draws.{draws, default_space, pair-IsBlueprint}
use marinatb.Json.Severed.{Fresh}
use marinatb.Json.Unplaceable.{embed-severed}
use marinatb.Blueprint.Computer.{Computer}

to_blueprint-of_blueprint_example :
    to_blueprint trees unary little_endian draws (of_blueprint trees unary pair_blueprint)
    ≡ ok (stored_blueprint pair_blueprint)
to_blueprint-of_blueprint_example =
    to_blueprint-of_blueprint trees trees-laws unary unary-laws little_endian
      (record { addr = 2570; mask = 16 }) draws pair_blueprint default_space pair-IsBlueprint

-- The sample site after it was written and read: the ids of its switch and hosts are new ones.
abbrev reread : Uuid → String → String → Host
reread id name mac = record {
  host_comp = record (machine name id 3 "02:00" mac) {
    memory = record { size = 64; unit = gb };
    disk = record { size = 900; unit = gb };
    interfaces = ("cifx", interface "cifx" "02:00" 1) ∷ ("ifx", interface "ifx" mac 10) ∷ [];
  };
  machines = [];
}

abbrev site_read : TestbedTopology
site_read = record small_site {
  switches = (1012, record leaf { id = 1012 }) ∷ [];
  hosts = (1011, reread 1011 "x" "x0") ∷ (1021, reread 1021 "y" "y0") ∷ [];
}

site-read :
    to_topology trees unary little_endian draws (of_topology trees unary small_site) ≡ ok site_read
unfolding to_topology of_topology marinatb.Json.Object.object marinatb.Json.Parts.into_map
    marinatb.Json.Wholes.to_host marinatb.Json.Object.extract marinatb.Json.Wholes.of_host
    marinatb.Json.Values.to_memory marinatb.Json.Values.of_memory marinatb.Units.Memory.parse_unit
    marinatb.Units.Memory.to_string marinatb.Json.Parts.to_interface
    marinatb.Json.Parts.of_interface marinatb.Json.Values.to_latency marinatb.Json.Values.of_latency
    marinatb.Units.Latency.parse_unit marinatb.Units.Latency.to_string
    marinatb.Json.Values.to_bandwidth marinatb.Json.Values.of_bandwidth
    marinatb.Blueprint.Computer.add_ifx marinatb.Blueprint.Computer.create
    marinatb.Blueprint.Interface.create marinatb.Blueprint.Network.create Dict.emplace
    Dict.insert_or_assign Dict.update of_string marinatb.Json.Parts.into_list
    marinatb.Json.Parts.of_computer marinatb.Json.Parts.of_network marinatb.Json.Parts.to_computer
    marinatb.Json.Parts.to_network marinatb.Json.Values.of_address marinatb.Json.Values.of_endpoint
    marinatb.Json.Values.of_uuid marinatb.Json.Values.to_address marinatb.Json.Values.to_endpoint
    marinatb.Json.Values.to_uuid marinatb.Json.Wholes.of_switch marinatb.Json.Wholes.of_tb_link
    marinatb.Json.Wholes.to_switch marinatb.Json.Wholes.to_tb_link marinatb.Topo.Host.add_ifx
    marinatb.Topo.Host.create marinatb.Topo.Switch.allocated_backplane marinatb.Topo.Switch.create
    marinatb.Units.Bandwidth.megabits marinatb.Units.Bandwidth.parse_unit
    marinatb.Units.Bandwidth.to_string
site-read = refl

draws-Fresh : Fresh draws site_read.links
draws-Fresh path = ((omega arith, omega arith), ((omega arith, omega arith), tt))

-- The pair finds no place in the site that was read; without links it has nothing to place.
run_read : run pair_blueprint site_read ≡ err undefined
unfolding run
run_read = refl

run_apart : run (record pair_blueprint { links = [] }) site_read ≡ ok (Chart.of_topology site_read)
unfolding run Chart.of_topology
run_apart = refl

embed-severed_example : placement_order plain_pipes (record pair_blueprint { links = [] }) ≡ ok []
unfolding run
embed-severed_example =
    embed-severed thousandths plain_pipes plain_pipes-laws plain_std plain_std-laws trees unary
      little_endian draws (of_topology trees unary small_site) site_read
      (record pair_blueprint { links = [] }) (Chart.of_topology site_read) site-read draws-Fresh
      run_apart

little-PtonInRange : PtonInRange little_endian
little-PtonInRange text a h = elim (Bool-cases (text == "10.10.0.0")) [
  | inl y ↦
      let same : some 2570 ≡ some a = rw y at h in
      subst (λ x. x < 2 ^ 32) (some-injective 2570 a same) (omega arith)
  | inr n ↦ let bad : none ≡ some a = rw n at h in cc
]

-- A computer with an interface more, whose memory is set.
abbrev told : Blueprint
told =
    computer_edited
      (computer_edited (computer (create "pair" 1) "a" 11 "a0").0 11 (
        interface_added "eth0" (record { size = 1; unit = gbps }) (record { size = 0; unit = ms })
          "a1"))
      11 (computer_memory (record { size = 8; unit = gb }))

told-Reachable : Reachable little_endian told
told-Reachable = with_computer_edit 11 (computer_memory (record { size = 8; unit = gb })) (
    with_computer_edit 11
      (interface_added "eth0" (record { size = 1; unit = gbps }) (record { size = 0; unit = ms })
        "a1")
      (with_computer "a" 11 "a0" (created "pair" 1)))

told-InRange : InRange told-Reachable
unfolding InRange told-Reachable
told-InRange = (omega arith, ((omega arith, omega arith), (omega arith, omega arith)))

to_blueprint-Reachable_example :
    to_blueprint trees unary little_endian draws (of_blueprint trees unary told)
    ≡ ok (stored_blueprint told)
to_blueprint-Reachable_example =
    to_blueprint-Reachable little_endian little-PtonInRange trees trees-laws unary unary-laws
      (record { addr = 2570; mask = 16 }) draws told-Reachable default_space told-InRange
