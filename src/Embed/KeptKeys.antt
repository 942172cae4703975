-- ===== src/Embed/KeptKeys.antt =====
-- The operations on a chart and its keys (core/embed.cxx).
use marinatb.Common.{
  ℕ, ◌≡◌, List, [], ◌∷◌, ok, ok-injective, >>=-eq-ok, or_throw, runtime_error, subst, ltb, nat_eq,
  Bool-cases, inl, inr, ◌>>=◌,
}
use marinatb.Common.Dict
use marinatb.Common.Dict.{Dict}
use marinatb.Common.Keyed.{Keyed, insert_or_assign-Keyed}
use marinatb.Platform.{Double, Pipes, Std}
use marinatb.Ident.{Uuid}
use marinatb.Blueprint.Network.{Network}
use marinatb.Blueprint.Computer.{Computer}
use marinatb.Blueprint.Store.{Blueprint}
use marinatb.Blueprint.Graph.{connected_computers}
use marinatb.Topo.Host.{Host}
use marinatb.Topo.Switch.{Switch}
use marinatb.Topo.Testbed.{TestbedTopology}
use marinatb.Embed.Load.{HostEmbedding, empty_host, drop_machine}
use marinatb.Embed.Chart.{
  EChart, SwitchEmbedding, of_topology, add_hosts, add_switches, get_embedding,
  get_network_embedding,
}
use marinatb.Embed.Fill.{fill_switches}
use marinatb.Embed.Overload.{finished}
use marinatb.Embed.Keyed.{host_key, switch_key, IsKeyed, fill_switches-Keyed}
use marinatb.Embed.Algorithm.{
  with_network, note_network, count_members, embed_networks, placement_order, switch_order,
  embed_computers, embed,
}
use marinatb.Embed.Unembed.{
  unembed_computer, unembed_computers, drop_network, unembed_networks, unembed,
}

add_hosts-Keyed :
    (hosts : Dict Uuid Host) (m : Dict Uuid HostEmbedding)
    → Keyed host_key m
    → Keyed host_key (add_hosts hosts m)
unfolding add_hosts
add_hosts-Keyed [] m h = h
add_hosts-Keyed ((k, x) ∷ hosts) m h =
    add_hosts-Keyed hosts _ (insert_or_assign-Keyed host_key (empty_host x) m h)

add_switches-Keyed :
    (ss : Dict Uuid Switch) (m : Dict Uuid SwitchEmbedding)
    → Keyed switch_key m
    → Keyed switch_key (add_switches ss m)
unfolding add_switches
add_switches-Keyed [] m h = h
add_switches-Keyed ((k, s) ∷ ss) m h =
    add_switches-Keyed ss _
      (insert_or_assign-Keyed switch_key (record { sw = s; networks = [] }) m h)

-- The chart of a topology has each host and each switch once, under its id.
pub of_topology-IsKeyed : (t : TestbedTopology) → IsKeyed (of_topology t)
unfolding of_topology
of_topology-IsKeyed t =
    (add_hosts-Keyed t.hosts [] (tt, tt), add_switches-Keyed t.switches [] (tt, tt))

note_network-Keyed :
    (n : Network) (counts : Dict Uuid ℕ) (m m' : Dict Uuid SwitchEmbedding)
    → Keyed switch_key m
    → note_network n counts m ≡ ok m'
    → Keyed switch_key m'
unfolding note_network with_network
note_network-Keyed n [] m m' h e = subst (Keyed switch_key) (ok-injective e) h
note_network-Keyed n ((k, count) ∷ counts) m m' h e = elim (Bool-cases (ltb 1 count)) [
  | inl many ↦
      let noted : (do
        se ← or_throw (Dict.find k m) runtime_error
        note_network n counts (Dict.insert_or_assign se.sw.id (with_network se n) m))
          ≡ ok m' =
        rw many at e in
      let one = >>=-eq-ok (or_throw (Dict.find k m) runtime_error) _ noted in
      note_network-Keyed n counts _ m'
        (insert_or_assign-Keyed switch_key (with_network one.0 n) m h) one.2
  | inr few ↦
      let skipped : note_network n counts m ≡ ok m' = rw few at e in
      note_network-Keyed n counts m m' h skipped
]

module _ {F : Type 0} (p : Pipes F) (st : Std) where
  embed_networks-IsKeyed :
      (b : Blueprint) (t : TestbedTopology) (ns : Dict Uuid Network) (e e' : EChart)
      → IsKeyed e
      → embed_networks p st b t ns e ≡ ok e'
      → IsKeyed e'
  unfolding embed_networks
  embed_networks-IsKeyed b t [] e e' h q = subst IsKeyed (ok-injective q) h
  embed_networks-IsKeyed b t ((k, n) ∷ ns) e e' h q =
      let one = >>=-eq-ok (connected_computers p b n) _ q in
      let two = >>=-eq-ok (count_members st e t one.0 []) _ one.2 in
      let three = >>=-eq-ok (note_network n two.0 e.smap) _ two.2 in
      embed_networks-IsKeyed b t ns (record e { smap = three.0 }) e'
        (h.0, note_network-Keyed n two.0 e.smap three.0 h.1 three.1) three.2

module _ {F : Type 0} (d : Double F) (p : Pipes F) (st : Std) where
  -- embed keeps a chart whose entries stand under the id of their host or switch, each once.
  pub embed-IsKeyed :
      (b : Blueprint) (e e' : EChart) (t : TestbedTopology)
      → IsKeyed e
      → embed d p st b e t ≡ ok e'
      → IsKeyed e'
  unfolding embed embed_computers
  embed-IsKeyed b e e' t h q =
      let placed = >>=-eq-ok (embed_computers d p st b e t) _ q in
      let one = >>=-eq-ok (placement_order p b) _ placed.1 in
      let two = >>=-eq-ok (switch_order d p st e t) _ one.2 in
      let three = >>=-eq-ok (fill_switches d p st two.0 _) _ two.2 in
      let filled : Keyed host_key three.0.hmap =
        fill_switches-Keyed d p st two.0 (record { hmap = e.hmap; left = one.0 }) three.0 h.0
          three.1 in
      let kept : IsKeyed placed.0 =
        subst IsKeyed (finished three.0 e placed.0 three.2) (filled, h.1) in
      embed_networks-IsKeyed p st b t b.networks placed.0 e' kept placed.2

unembed_computers-IsKeyed :
    (cs : Dict Uuid Computer) (e e' : EChart)
    → IsKeyed e
    → unembed_computers cs e ≡ ok e'
    → IsKeyed e'
unfolding unembed_computers unembed_computer drop_machine
unembed_computers-IsKeyed [] e e' h q = subst IsKeyed (ok-injective q) h
unembed_computers-IsKeyed ((k, c) ∷ cs) e e' h q =
    let one = >>=-eq-ok (unembed_computer e c) _ q in
    let two = >>=-eq-ok (get_embedding e c) _ one.1 in
    let kept : IsKeyed one.0 =
      subst IsKeyed (ok-injective two.2)
        (insert_or_assign-Keyed host_key (drop_machine two.0 c) e.hmap h.0, h.1) in
    unembed_computers-IsKeyed cs one.0 e' kept one.2

drop_network-IsKeyed :
    (n : Network) (ses : List SwitchEmbedding) (e : EChart)
    → IsKeyed e
    → IsKeyed (drop_network n ses e)
unfolding drop_network
drop_network-IsKeyed n [] e h = h
drop_network-IsKeyed n (se ∷ ses) e h = drop_network-IsKeyed n ses _ (
  h.0,
  insert_or_assign-Keyed switch_key (record se { networks = Dict.erase n.id se.networks }) e.smap
      h.1,
)

unembed_networks-IsKeyed :
    (ns : Dict Uuid Network) (e : EChart) → IsKeyed e → IsKeyed (unembed_networks ns e)
unfolding unembed_networks
unembed_networks-IsKeyed [] e h = h
unembed_networks-IsKeyed ((k, n) ∷ ns) e h =
    unembed_networks-IsKeyed ns _ (drop_network-IsKeyed n (get_network_embedding e n) e h)

-- unembed keeps a chart whose entries stand under the id of their host or switch, each once.
pub unembed-IsKeyed : (b : Blueprint) (e e' : EChart) → IsKeyed e → unembed b e ≡ ok e' → IsKeyed e'
unfolding unembed
unembed-IsKeyed b e e' h q =
    let one = >>=-eq-ok (unembed_computers b.computers e) _ q in
    subst IsKeyed (ok-injective one.2) (
      unembed_networks-IsKeyed b.networks one.0
        (unembed_computers-IsKeyed b.computers e one.0 h one.1))
