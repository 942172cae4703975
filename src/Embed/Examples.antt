-- ===== src/Embed/Examples.antt =====
-- Embedding the sample blueprint in sample sites, and the theorems at those inputs.
use marinatb.Common.{
  ◌≡◌, refl, ap, true, ◌++◌, map, false, ok, err, out_of_range, List, [], ◌∷◌, arith, find_if,
}
use marinatb.Common.Dict
use marinatb.Sample.{thousandths, plain_pipes, plain_pipes-laws, plain_std, plain_std-laws}
use marinatb.Sample.Run.{run}
use marinatb.Sample.Site.{
  node_a, node_b, lan, pair_blueprint, host_x, host_y, leaf, small_site, shared_site,
}
use marinatb.Blueprint.Computer.{Computer}
use marinatb.Embed.Load.{load, overloaded, add_machine, drop_machine, empty_host, HostEmbedding}
use marinatb.Embed.Chart.{EChart, of_topology, get_embedding, get_network_embedding}
use marinatb.Embed.Pack.{pack}
use marinatb.Embed.Fill.{Progress, fill}
use marinatb.Embed.Algorithm.{placement_order}
use marinatb.Embed.Packing.{Absent, Distinct, entry, pack-splits, pack-fits, pack-stops}
use marinatb.Embed.Fuel.{fill-enough, Loop, fill-Loop}
use marinatb.Embed.Filling.{Fits}
use marinatb.Embed.Unembed.{
  unembed, unembed_computers, unembed_computer, unembed_networks, drop_network,
}
use marinatb.Embed.Keyed.{IsKeyed}
use marinatb.Embed.KeptKeys.{of_topology-IsKeyed, embed-IsKeyed}
use marinatb.Embed.Overload.{embed-of_topology-Fits}

embedded : EChart
embedded = record {
  hmap =
      (21, record { host = host_x; machines = (12, node_b) ∷ [] })
      ∷ (22, record { host = host_y; machines = (11, node_a) ∷ [] })
      ∷ [];
  smap = (31, record { sw = leaf; networks = (10, lan) ∷ [] }) ∷ [];
}

run_small : run pair_blueprint small_site ≡ ok embedded
unfolding run embedded
run_small = refl

embed-of_topology-Fits_example : Fits plain_pipes embedded.hmap
unfolding run
embed-of_topology-Fits_example =
    embed-of_topology-Fits thousandths plain_pipes plain_std plain_pipes-laws plain_std-laws
      pair_blueprint small_site embedded run_small

embed-IsKeyed_example : IsKeyed embedded
unfolding run
embed-IsKeyed_example =
    embed-IsKeyed thousandths plain_pipes plain_std pair_blueprint (of_topology small_site) embedded
      small_site (of_topology-IsKeyed small_site) run_small

embedded-IsKeyed : IsKeyed embedded
unfolding run
embedded-IsKeyed =
    embed-IsKeyed thousandths plain_pipes plain_std pair_blueprint (of_topology small_site) embedded
      small_site (of_topology-IsKeyed small_site) run_small

-- unembed takes away what embed has placed.
undo : unembed pair_blueprint embedded ≡ ok (of_topology small_site)
unfolding unembed unembed_computers unembed_computer unembed_networks drop_network drop_machine
    get_embedding get_network_embedding find_if Dict.contains Dict.insert_or_assign Dict.erase
    of_topology embedded
undo = refl

-- A host at two switches: its copy at the second switch lacks the computer that it got through the
-- first, so that computer is lost, and the search for it throws.
run_shared : run pair_blueprint shared_site ≡ err out_of_range
unfolding run
run_shared = refl

-- The order in which the machines of the sample are placed.
abbrev both : List Computer
both = node_a ∷ node_b ∷ []

both-Absent : Absent [] both
unfolding Dict.find
both-Absent = (refl, (refl, tt))

both-Distinct : Distinct both
both-Distinct = ((refl, tt), (tt, tt))

-- Host x takes the first computer and not the second.
pack_x :
    pack plain_pipes (empty_host host_x) both
    ≡ (record { host = host_x; machines = (11, node_a) ∷ [] }, node_b ∷ [])
unfolding run
pack_x = refl

fits_x : overloaded (load plain_pipes (empty_host host_x)) ≡ false
unfolding run
fits_x = refl

pack-splits_example :
    (moved : List Computer) × (both ≡ moved ++ (pack plain_pipes (empty_host host_x) both).1)
    × ((pack plain_pipes (empty_host host_x) both).0
        ≡ record { host = host_x; machines = map entry moved })
pack-splits_example = pack-splits plain_pipes (empty_host host_x) both both-Absent both-Distinct

pack-fits_example :
    overloaded (load plain_pipes (pack plain_pipes (empty_host host_x) both).0) ≡ false
pack-fits_example = pack-fits plain_pipes (empty_host host_x) both both-Absent both-Distinct fits_x

pack-stops_example :
    overloaded (load plain_pipes (add_machine (pack plain_pipes (empty_host host_x) both).0 node_b))
    ≡ true
pack-stops_example =
    pack-stops plain_pipes (empty_host host_x) both [] node_b both-Absent both-Distinct
      (ap (λ (r : HostEmbedding × List Computer). r.1) pack_x)

abbrev start : Progress
start = record { hmap = (21, empty_host host_x) ∷ (22, empty_host host_y) ∷ []; left = both }

abbrev hosts : List HostEmbedding
hosts = empty_host host_x ∷ empty_host host_y ∷ []

fill-enough_example :
    fill thousandths plain_pipes plain_std 3 hosts start
    ≡ fill thousandths plain_pipes plain_std 7 hosts start
fill-enough_example =
    fill-enough thousandths plain_pipes plain_std 3 7 hosts start (omega arith) (omega arith)

fill-Loop_example :
    Loop thousandths plain_pipes plain_std hosts start
      (fill thousandths plain_pipes plain_std 3 hosts start)
fill-Loop_example = fill-Loop thousandths plain_pipes plain_std 3 hosts start (omega arith)

placed : placement_order plain_pipes pair_blueprint ≡ ok both
unfolding run
placed = refl
