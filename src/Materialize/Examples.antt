-- ===== src/Materialize/Examples.antt =====
-- Materializing the sample blueprint, and the theorems at concrete inputs.
use mathlib.Core.List.{filter_map}
use marinatb.Common.{
  ℕ, ◌+◌, ◌≡◌, ◌≢◌, refl, some, Result, ok, err, out_of_range, List, [], ◌∷◌, arith, find_if, any,
  sequence, sum64, nat_eq,
}
use marinatb.Common.Dict
use marinatb.Sample.{thousandths, plain_pipes, plain_std, little_endian, little_endian-laws}
use marinatb.Sample.Site.{node_a, node_b, pair_blueprint, small_site, interface}
use marinatb.Units.Memory
use marinatb.Units.Bandwidth
use marinatb.Ident
use marinatb.Ip.{IpV4Address}
use marinatb.Blueprint.Computer
use marinatb.Blueprint.Store.{Blueprint}
use marinatb.Blueprint.Graph
use marinatb.Topo.Connected
use marinatb.Topo.Testbed.{TestbedTopology}
use marinatb.Embed.Load.{load, overloaded, total_of, add_machine, drop_machine, free_norm}
use marinatb.Embed.Chart.{of_topology, get_embedding}
use marinatb.Embed.Pack.{pack}
use marinatb.Embed.Fill.{freer, place, round, fill, fill_switches}
use marinatb.Embed.Algorithm.{
  collect_members, collect_networks, placement_order, switch_order, embed_computers, embed_networks,
  embed, count_members, note_network, count_switches, count_up, less_loaded,
}
use marinatb.Materialize.Ids.{
  LinearIdCacheMap, Op, create_op, get_op, erase_op, looking, finished, lookup, counted, entered,
  assign, create, get, erase, locked, called, run, interleave,
}
use marinatb.Materialize.IdLaws.{run-distinct}
use marinatb.Materialize.Race.{overtaken, in_turn, create-race}
use marinatb.Materialize.AddressLaws.{Differ, set_addresses-Differ}
use marinatb.Materialize.Addresses.{set_addresses}
use marinatb.Materialize.Construct.{
  Constructed, Request, prepare, fresh, machine_requests, host_requests, set_networks, construct,
}
use marinatb.Materialize.Commands.{Bare, construct-sends_nothing}

-- A database that counts the ids of networks up.
abbrev count_up_vni : ℕ → ℕ → Result (ℕ × ℕ)
count_up_vni id s = ok (s, s + 1)

start : Blueprint → TestbedTopology → List Request × Result (Constructed ℕ)
unfolding construct prepare set_networks host_requests machine_requests embed embed_computers
    embed_networks placement_order switch_order less_loaded count_members sequence
    Graph.connected_computers filter_map Graph.neighbors Graph.facing Graph.computer_at Dict.find
    Graph.interface_of Computer.get_interface_by_mac find_if of_topology Dict.insert_or_assign
    Connected.connected_hosts Connected.visit_links Connected.visit_link Ident.eq
    Connected.insert_found Computer.has_mac Computer.hwspec Dict.contains Dict.erase any sum64
    collect_members collect_networks note_network count_switches count_up get_embedding fill
    fill_switches freer place round add_machine drop_machine free_norm load overloaded total_of pack
    Connected.connected_switches Connected.insert_new Connected.same_host Connected.same_switch
    Connected.visit_host_link Connected.visit_host_links Bandwidth.megabits Memory.bytes
    Memory.megabytes
start b t = construct thousandths plain_pipes plain_std little_endian count_up_vni b t fresh 100

-- The sample blueprint has computers on a network: construct throws.
start_pair : start pair_blueprint small_site ≡ ([], err out_of_range)
unfolding start
start_pair = refl

-- The sample blueprint without its links.
abbrev loose : Blueprint
loose = record pair_blueprint { links = [] }

loose_result : Constructed ℕ
loose_result = record {
  embedding = of_topology small_site;
  mzn = record { machines = []; networks = (10, record { vni = 100 }) ∷ [] };
  database = 101;
  writes = [];
}

start-loose : start loose small_site ≡ ([], ok loose_result)
unfolding start loose_result set_addresses
start-loose = refl

construct-sends_nothing_example :
    ((start loose small_site).0 ≡ [])
    × ((r : Constructed ℕ)
        → (start loose small_site).1 ≡ ok r
        → Bare r.embedding.hmap × (r.mzn.machines ≡ []))
unfolding start
construct-sends_nothing_example =
    construct-sends_nothing thousandths plain_pipes plain_std little_endian count_up_vni loose
      small_site fresh 100 refl

-- 10.10.0.255, after which the address of the next network is skipped.
abbrev last_of_net : IpV4Address
last_of_net = record { addr = 4278192650; mask = 16 }

set_addresses-Differ_example : Differ little_endian little_endian-laws (
    set_addresses little_endian last_of_net
      ((node_a, interface "eth0" "a1" 1) ∷ (node_b, interface "eth0" "b1" 1) ∷ []))
set_addresses-Differ_example =
    set_addresses-Differ little_endian little_endian-laws last_of_net
      ((node_a, interface "eth0" "a1" 1) ∷ (node_b, interface "eth0" "b1" 1) ∷ []) (omega arith)

abbrev some_calls : List (Op ℕ)
some_calls = create_op 5 ∷ create_op 6 ∷ get_op 5 ∷ erase_op 7 ∷ []

after : LinearIdCacheMap ℕ
after = record { v = 2; m = (6, 1) ∷ [] }

run-distinct_example : ◌≢◌ {A = ℕ} 0 1
unfolding run called locked create lookup assign counted entered erase get Dict.find
    Dict.insert_or_assign Dict.erase
run-distinct_example =
    run-distinct some_calls 5 6 0 1 (omega arith) (λ e. absurd (omega (arith, e))) refl refl

create-race_example :
    ((end : LinearIdCacheMap ℕ) × (interleave 7 8 overtaken (looking, looking, after)
        ≡ (finished 2, finished 2, end))
      × (lookup 7 end ≡ some 2)
      × (lookup 8 end ≡ some 2))
    × (interleave 7 8 in_turn (looking, looking, after) ≡ (
      finished (create 7 after).0,
      finished (create 8 (create 7 after).1).0,
      (create 8 (create 7 after).1).1,
    ))
unfolding after lookup Dict.find
create-race_example = create-race 7 8 after (λ e. absurd (omega (arith, e))) refl refl
