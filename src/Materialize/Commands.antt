-- ===== src/Materialize/Commands.antt =====
-- Which commands reach a host (core/materialization-service.cxx).
use marinatb.Common.{
  Result-cases, inl, inr, String, ◌≡◌, refl, List, [], ◌∷◌, ◌++◌, All, Result, ok, err,
  out_of_range, ok-injective, >>=-eq-ok, ap, sym, ◌∙◌, nat_eq, subst, ℕ,
}
use marinatb.Common.Dict
use marinatb.Common.Dict.{Dict}
use marinatb.Platform.{Double, Pipes, Std, Inet}
use marinatb.Ident.{Uuid}
use marinatb.Blueprint.Network.{Network}
use marinatb.Blueprint.Interface.{Interface}
use marinatb.Blueprint.Computer.{Computer}
use marinatb.Blueprint.Store.{Blueprint}
use marinatb.Blueprint.Graph.{connected_computers}
use marinatb.Topo.Host
use marinatb.Topo.Host.{Host}
use marinatb.Topo.Testbed.{TestbedTopology}
use marinatb.Embed.Load.{HostEmbedding, empty_host}
use marinatb.Embed.Chart.{of_topology, add_hosts}
use marinatb.Embed.Algorithm.{embed}
use marinatb.Materialize.Addresses.{set_addresses}
use marinatb.Materialize.Construct.{
  Materialization, Constructed, Request, machine_requests, host_requests, set_networks, construct,
  prepare, call_out, hosts_with, all_hosts_with, destruct_hosts,
}

-- No host of a chart has a machine.
abbrev pub Bare : Dict Uuid HostEmbedding → Type 0
Bare = All λ e. e.1.machines ≡ []

machine_requests-none :
    (mzn : Materialization) (host : String) (ms : Dict Uuid Computer) (rs : List Request)
    → mzn.machines ≡ []
    → machine_requests mzn host ms ≡ ok rs
    → (ms ≡ []) × (rs ≡ [])
unfolding machine_requests Dict.find
machine_requests-none mzn host [] rs e h = (refl, sym (ok-injective h))
machine_requests-none mzn host ((k, c) ∷ ms) rs e h =
    let bad : err out_of_range ≡ ok rs = rw e at h in cc

-- The loop over the hosts sends nothing, and ends only if no host has a machine.
host_requests-none :
    (mzn : Materialization) (hs : Dict Uuid HostEmbedding)
    → mzn.machines ≡ []
    → ((host_requests mzn hs).0 ≡ []) × ((host_requests mzn hs).1 ≡ ok tt → Bare hs)
unfolding host_requests
host_requests-none mzn [] e = (refl, λ h. tt)
host_requests-none mzn ((k, he) ∷ hs) e =
    elim (Result-cases (machine_requests mzn (Host.name he.host) he.machines)) [
      | inl (x, q) ↦ rw q (refl, λ h. let bad : err x ≡ ok tt = h in cc)
      | inr (here, q) ↦
          let none_here = machine_requests-none mzn (Host.name he.host) he.machines here e q in
          let rest = host_requests-none mzn hs e in
          rw q (rw (none_here.1, rest.0) refl, λ h. (none_here.0, rest.1 h))
    ]

module _ {F S : Type 0} (p : Pipes F) (o : Inet) (new_vni : Uuid → S → Result (ℕ × S)) where
  set_networks-machines :
      (bp : Blueprint) (ns : Dict Uuid Network) (mzn : Materialization) (s : S)
      (r : Materialization × S × List (Computer × Interface))
      → set_networks p o new_vni bp ns mzn s ≡ ok r
      → r.0.machines ≡ mzn.machines
  unfolding set_networks
  set_networks-machines bp [] mzn s r h =
      let same : (mzn, s, []) ≡ r = ok-injective h in
      ap (λ (x : Materialization × S × List (Computer × Interface)). x.0.machines) (sym same)
  set_networks-machines bp ((k, n) ∷ ns) mzn s r h =
      let one = >>=-eq-ok (new_vni n.id s) _ h in
      let two = >>=-eq-ok (connected_computers p bp n) _ one.2 in
      let three = >>=-eq-ok (set_networks p o new_vni bp ns _ _) _ two.2 in
      let rest = set_networks-machines bp ns _ _ three.0 three.1 in
      let same : (three.0.0, three.0.1, set_addresses o n.ipv4space two.0 ++ three.0.2) ≡ r =
        ok-injective three.2 in
      ap (λ (x : Materialization × S × List (Computer × Interface)). x.0.machines) (sym same) ∙ rest

module _ {F S : Type 0} (d : Double F) (p : Pipes F) (st : Std) (o : Inet)
    (new_vni : Uuid → S → Result (ℕ × S)) where
  prepare-machines :
      (bp : Blueprint) (topo : TestbedTopology) (mzn : Materialization) (s : S) (r : Constructed S)
      → prepare d p st o new_vni bp topo mzn s ≡ ok r
      → r.mzn.machines ≡ mzn.machines
  unfolding prepare
  prepare-machines bp topo mzn s r h =
      let one = >>=-eq-ok (embed d p st bp (of_topology topo) topo) _ h in
      let two = >>=-eq-ok (set_networks p o new_vni bp bp.networks mzn s) _ one.2 in
      ap (λ (x : Constructed S). x.mzn.machines) (sym (ok-injective two.2))
      ∙ set_networks-machines p o new_vni bp bp.networks mzn s two.0 two.1

  call_out-none :
      (x r : Constructed S)
      → x.mzn.machines ≡ []
      → ((call_out d p st o new_vni (ok x)).0 ≡ [])
        × ((call_out d p st o new_vni (ok x)).1 ≡ ok r
            → Bare r.embedding.hmap × (r.mzn.machines ≡ []))
  call_out-none x r e =
      let quiet = host_requests-none x.mzn x.embedding.hmap e in
      (
        quiet.0,
        λ h.
            let one = >>=-eq-ok (host_requests x.mzn x.embedding.hmap).1 _ h in
            subst (λ (y : Constructed S). Bare y.embedding.hmap × (y.mzn.machines ≡ []))
              (ok-injective one.2) (quiet.1 one.1, e),
      )

  -- Where the service knows no machine of a materialization, construct sends no request, however it ends,
  -- and returns only if no host got a machine; then the service still knows no machine.
  pub construct-sends_nothing :
      (bp : Blueprint) (topo : TestbedTopology) (mzn : Materialization) (s : S)
      → mzn.machines ≡ []
      → ((construct d p st o new_vni bp topo mzn s).0 ≡ [])
        × ((r : Constructed S)
            → (construct d p st o new_vni bp topo mzn s).1 ≡ ok r
            → Bare r.embedding.hmap × (r.mzn.machines ≡ []))
  unfolding construct
  construct-sends_nothing bp topo mzn s e =
      elim (Result-cases (prepare d p st o new_vni bp topo mzn s)) [
        | inl (x, q) ↦ rw q (refl, λ r h. let bad : err x ≡ ok r = h in cc)
        | inr (x, q) ↦
            let known = prepare-machines bp topo mzn s x q ∙ e in
            rw q ((call_out-none x x known).0, λ r h. (call_out-none x r known).1 h)
      ]

add_hosts-Bare :
    (hosts : Dict Uuid Host) (m : Dict Uuid HostEmbedding) → Bare m → Bare (add_hosts hosts m)
unfolding add_hosts
add_hosts-Bare [] m h = h
add_hosts-Bare ((k, x) ∷ hosts) m h = add_hosts-Bare hosts _ (
    Dict.insert_or_assign-All (λ (he : HostEmbedding). he.machines ≡ []) (Host.id x) (empty_host x)
      m refl h)

hosts_with-Bare :
    (id : Uuid) (hs : Dict Uuid HostEmbedding) (names : List String)
    → Bare hs
    → hosts_with id hs names ≡ names
unfolding hosts_with Dict.contains
hosts_with-Bare id [] names b = refl
hosts_with-Bare id ((k, he) ∷ hs) names b = rw b.0 (hosts_with-Bare id hs names b.1)

all_hosts_with-Bare :
    (cs : Dict Uuid Computer) (hs : Dict Uuid HostEmbedding) (names : List String)
    → Bare hs
    → all_hosts_with cs hs names ≡ names
unfolding all_hosts_with
all_hosts_with-Bare [] hs names b = refl
all_hosts_with-Bare ((k, c) ∷ cs) hs names b =
    rw (hosts_with-Bare c.id hs names b) (all_hosts_with-Bare cs hs names b)

-- destruct sends a command to no host, whatever the blueprint and the topology.
pub destruct_hosts-none : (bp : Blueprint) (topo : TestbedTopology) → destruct_hosts bp topo ≡ []
unfolding destruct_hosts of_topology
destruct_hosts-none bp topo =
    all_hosts_with-Bare bp.computers _ [] (add_hosts-Bare topo.hosts [] tt)
