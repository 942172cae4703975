-- ===== src/Embed/Algorithm.antt =====
-- embed (core/embed.cxx).
use marinatb.Common.{
  ℕ, ◌+◌, Bool, ◌==◌, nat_eq, Option, none, some, List, [], ◌∷◌, ◌++◌, Result, ok, err, undefined,
  runtime_error, or_throw, ◌>>=◌, sequence, any, ltb, length, is_empty, if◌then◌else◌,
}
use marinatb.Common.Dict
use marinatb.Common.Dict.{Dict}
use marinatb.Platform.{Double, Pipes, Std}
use marinatb.Ident.{Uuid}
use marinatb.Blueprint.Interface.{Interface}
use marinatb.Blueprint.Network.{Network}
use marinatb.Blueprint.Computer.{Computer}
use marinatb.Blueprint.Store.{Blueprint}
use marinatb.Blueprint.Graph.{connected_computers}
use marinatb.Topo.Switch.{Switch}
use marinatb.Topo.Host
use marinatb.Topo.Host.{Host}
use marinatb.Topo.Testbed.{TestbedTopology}
use marinatb.Topo.Connected.{connected_hosts, connected_switches}
use marinatb.Embed.Load.{HostEmbedding, load, free_norm}
use marinatb.Embed.Chart.{EChart, SwitchEmbedding, get_embedding}
use marinatb.Embed.Fill.{fill_switches}

abbrev pub Members : Type 0
Members = List (Computer × Interface)

abbrev pub same_id : Computer → Computer → Bool
same_id c x = x.id == c.id

-- The loops that list the computers in the order of the networks, each once.
unfoldable pub collect_members : Members → List Computer → List Computer
collect_members [] cs = cs
collect_members ((c, _) ∷ ms) cs =
    collect_members ms (if any (same_id c) cs then cs else cs ++ c ∷ [])

unfoldable pub collect_networks : List (Network × Members) → List Computer → List Computer
collect_networks [] cs = cs
collect_networks ((_, ms) ∷ ns) cs = collect_networks ns (collect_members ms cs)

abbrev pub more_members : Network × Members → Network × Members → Bool
more_members (_, x) (_, y) = ltb (length y) (length x)

abbrev pub or_zero : Option ℕ → ℕ
or_zero none = 0
or_zero (some n) = n

-- swc[s.id()]++
unfoldable pub count_up : Uuid → Dict Uuid ℕ → Dict Uuid ℕ
count_up k m = Dict.insert_or_assign k (or_zero (Dict.find k m) + 1) m

unfoldable pub count_switches : List Switch → Dict Uuid ℕ → Dict Uuid ℕ
count_switches [] m = m
count_switches (s ∷ ss) m = count_switches ss (count_up s.id m)

-- The networks of a switch with one more.
unfoldable pub with_network : SwitchEmbedding → Network → SwitchEmbedding
with_network se n = record se { networks = Dict.insert_or_assign n.id n se.networks }

-- The loop that notes a network at each switch that sees more than one of its computers.
unfoldable pub note_network :
    Network → Dict Uuid ℕ → Dict Uuid SwitchEmbedding → Result (Dict Uuid SwitchEmbedding)
unfolding with_network
note_network n [] smap = ok smap
note_network n ((k, count) ∷ m) smap =
    let skip = note_network n m smap in
    let note = do
      se ← or_throw (Dict.find k smap) runtime_error
      note_network n m (Dict.insert_or_assign se.sw.id (with_network se n) smap)
    in if ltb 1 count then note else skip

module _ {F : Type 0} (p : Pipes F) where
  abbrev pub with_members : Blueprint → Uuid × Network → Result (Network × Members)
  with_members b (_, n) = do ms ← connected_computers p b n; ok (n, ms)

  -- The computers of a blueprint, those of the largest network first.
  unfoldable pub placement_order : Blueprint → Result (List Computer)
  placement_order b = do
    nets ← sequence (p.map (with_members b) b.networks)
    ok (collect_networks (p.sort more_members nets) [])

-- e.hmap.find(y.id())->second, which is undefined for a host that is not in the chart.
abbrev pub embedding_of : EChart → Host → Result HostEmbedding
embedding_of e h = or_throw (Dict.find (Host.id h) e.hmap) undefined

module _ {F : Type 0} (p : Pipes F) (st : Std) where
  abbrev pub with_hosts :
      EChart
      → TestbedTopology
      → Uuid × SwitchEmbedding
      → Result (SwitchEmbedding × List HostEmbedding)
  with_hosts e tt (_, se) = do
    hes ← sequence (p.map (embedding_of e) (connected_hosts st tt se.sw))
    ok (se, hes)

module _ {F : Type 0} (d : Double F) (p : Pipes F) where
  -- aggLoad
  unfoldable pub agg_load : List HostEmbedding → F
  agg_load hosts =
      d.div (p.reduce_doubles (p.map (λ he. free_norm d (load p he)) hosts))
        (d.of_nat (length hosts))

  unfoldable pub less_loaded :
      SwitchEmbedding × List HostEmbedding → SwitchEmbedding × List HostEmbedding → Bool
  unfolding agg_load
  less_loaded (_, x) (_, y) = d.lt (agg_load x) (agg_load y)

module _ (st : Std) where
  -- The loop that counts, for each switch, the computers of a network whose hosts it serves.
  unfoldable pub count_members :
      EChart → TestbedTopology → Members → Dict Uuid ℕ → Result (Dict Uuid ℕ)
  count_members e tt [] m = ok m
  count_members e tt ((c, _) ∷ ms) m = do
    he ← get_embedding e c
    ss ← connected_switches st tt he.host
    count_members e tt ms (count_switches ss m)

module _ {F : Type 0} (p : Pipes F) (st : Std) where
  -- The loop over the networks of the blueprint.
  unfoldable pub embed_networks :
      Blueprint → TestbedTopology → Dict Uuid Network → EChart → Result EChart
  embed_networks b tt [] e = ok e
  embed_networks b tt ((_, n) ∷ ns) e = do
    ms ← connected_computers p b n
    counts ← count_members st e tt ms []
    smap ← note_network n counts e.smap
    embed_networks b tt ns (record e { smap = smap })

module _ {F : Type 0} (d : Double F) (p : Pipes F) (st : Std) where
  -- The switches, each with its hosts, in the order in which they are filled.
  unfoldable pub switch_order :
      EChart → TestbedTopology → Result (List (SwitchEmbedding × List HostEmbedding))
  switch_order e tt = do
    sws ← sequence (p.map (with_hosts p st e tt) e.smap)
    ok (p.sort (less_loaded d p) sws)

  -- The part of embed that places the computers.
  unfoldable pub embed_computers : Blueprint → EChart → TestbedTopology → Result EChart
  embed_computers b e tt = do
    cs ← placement_order p b
    sws ← switch_order e tt
    g ← fill_switches d p st sws (record { hmap = e.hmap; left = cs })
    if is_empty g.left then ok (record e { hmap = g.hmap }) else err runtime_error

  unfoldable pub embed : Blueprint → EChart → TestbedTopology → Result EChart
  embed b e tt = do placed ← embed_computers b e tt; embed_networks p st b tt b.networks placed
