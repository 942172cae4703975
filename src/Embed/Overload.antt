-- ===== src/Embed/Overload.antt =====
-- embed (core/embed.cxx) as a whole and the load of hosts.
use marinatb.Common.{
  ℕ, ◌≡◌, refl, false, List, [], ◌∷◌, some, none, All, All-intro, All-map, All-perm, ok, err,
  ok-injective, or_throw, >>=-eq-ok, subst, sym, nat_eq, sequence, sequence-All, is_empty, ap, ◌∙◌,
  sum64, if◌then◌else◌, arith, Option, runtime_error, Exception,
}
use marinatb.Common.Dict
use marinatb.Common.Dict.{Dict}
use marinatb.Platform.{Double, Pipes, PipesLaws, Std, StdLaws}
use marinatb.Ident.{Uuid}
use marinatb.Blueprint.Network.{Network}
use marinatb.Blueprint.Computer
use marinatb.Blueprint.Computer.{Computer}
use marinatb.Units.Memory
use marinatb.Blueprint.Graph.{connected_computers}
use marinatb.Blueprint.Store.{Blueprint}
use marinatb.Topo.Connected.{connected_hosts}
use marinatb.Topo.Host
use marinatb.Topo.Host.{Host}
use marinatb.Topo.Testbed.{TestbedTopology}
use marinatb.Embed.Load.{HostEmbedding, load, total_of, overloaded, empty_host}
use marinatb.Embed.Chart.{EChart, SwitchEmbedding, of_topology, add_hosts}
use marinatb.Embed.Packing.{Absent, Distinct}
use marinatb.Embed.Fill.{Progress, fill_switches}
use marinatb.Embed.Filling.{Ready, Fits}
use marinatb.Embed.Safety.{AllReady, fill_switches-Fits}
use marinatb.Embed.Order.{placement_order-Distinct}
use marinatb.Embed.Algorithm.{
  placement_order, embedding_of, with_hosts, switch_order, less_loaded, embed_networks,
  count_members, note_network, embed_computers, embed,
}

or_throw-eq-ok {ℓ} :
    {A : Type ℓ} (o : Option A) (x : Exception) {a : A} → or_throw o x ≡ ok a → o ≡ some a
or_throw-eq-ok none x e = cc
or_throw-eq-ok (some b) x e = cc

Absent-nil : (cs : List Computer) → Absent [] cs
unfolding Dict.find
Absent-nil [] = tt
Absent-nil (c ∷ cs) = (refl, Absent-nil cs)

pub finished :
    (g : Progress) (e e' : EChart)
    → (if is_empty g.left then ok (record e { hmap = g.hmap }) else err runtime_error) ≡ ok e'
    → record e { hmap = g.hmap } ≡ e'
finished g e e' h = ground arith

module _ {F : Type 0} (d : Double F) (p : Pipes F) (st : Std) where
  -- Every host of the chart can take the machines.
  abbrev pub ChartReady : List Computer → Dict Uuid HostEmbedding → Type 0
  ChartReady cs = All λ e. Ready p cs e.1

  pub embed_networks-hmap :
      (b : Blueprint) (tt' : TestbedTopology) (ns : Dict Uuid Network) (e e' : EChart)
      → embed_networks p st b tt' ns e ≡ ok e'
      → e'.hmap ≡ e.hmap
  unfolding embed_networks
  embed_networks-hmap b t [] e e' h =
      let same : e ≡ e' = ok-injective h in ap (λ (x : EChart). x.hmap) (sym same)
  embed_networks-hmap b t ((k, n) ∷ ns) e e' h =
      let one = >>=-eq-ok (connected_computers p b n) _ h in
      let two = >>=-eq-ok (count_members st e t one.0 []) _ one.2 in
      let three = >>=-eq-ok (note_network n two.0 e.smap) _ two.2 in
      embed_networks-hmap b t ns (record e { smap = three.0 }) e' three.2

  placement_order-ok :
      (b : Blueprint) (e e' : EChart) (t : TestbedTopology)
      → embed d p st b e t ≡ ok e'
      → (cs : List Computer) × (placement_order p b ≡ ok cs)
  unfolding embed embed_computers
  placement_order-ok b e e' t eq =
      let one = >>=-eq-ok (embed_computers d p st b e t) _ eq in
      let two = >>=-eq-ok (placement_order p b) _ one.1 in (two.0, two.1)

  module _ (pl : PipesLaws p) (sl : StdLaws st) where
    with_hosts-Ready :
        (e : EChart) (t : TestbedTopology) (cs : List Computer)
        → ChartReady cs e.hmap
        → (entry : Uuid × SwitchEmbedding) (r : SwitchEmbedding × List HostEmbedding)
        → with_hosts p st e t entry ≡ ok r
        → All (Ready p cs) r.1
    with_hosts-Ready e t cs h (k, se) r eq =
        subst (λ (x : SwitchEmbedding × List HostEmbedding). All (Ready p cs) x.1)
          (ok-injective step.2) ready
      where
        step :
            (hes : List HostEmbedding) × (sequence
                (p.map (embedding_of e) (connected_hosts st t se.sw))
              ≡ ok hes)
            × (ok (se, hes) ≡ ok r)
        step = >>=-eq-ok _ _ eq

        found : (x : Host) (he : HostEmbedding) → embedding_of e x ≡ ok he → Ready p cs he
        found x he q = Dict.find-All (Ready p cs) (Host.id x) e.hmap he h (or_throw-eq-ok _ _ q)

        ready : All (Ready p cs) step.0
        ready =
            sequence-All (Ready p cs) (embedding_of e) (connected_hosts st t se.sw) step.0
              (All-intro found _) (ap sequence (sym (pl.map_law _ _)) ∙ step.1)

    switch_order-AllReady :
        (e : EChart) (t : TestbedTopology) (cs : List Computer)
        (sws : List (SwitchEmbedding × List HostEmbedding))
        → ChartReady cs e.hmap
        → switch_order d p st e t ≡ ok sws
        → AllReady d p st sl cs sws
    switch_order-AllReady e t cs sws h eq =
        subst (AllReady d p st sl cs) (ok-injective step.2)
          (All-perm _ (pl.sort_law (less_loaded d p) step.0) ready)
      where
        step :
            (ss : List (SwitchEmbedding × List HostEmbedding)) × (sequence
                (p.map (with_hosts p st e t) e.smap)
              ≡ ok ss)
            × (ok (p.sort (less_loaded d p) ss) ≡ ok sws)
        step = >>=-eq-ok _ _ (unfold switch_order in eq)

        ready : AllReady d p st sl cs step.0
        ready =
            sequence-All _ (with_hosts p st e t) e.smap step.0
              (All-intro (with_hosts-Ready e t cs h) e.smap)
              (ap sequence (sym (pl.map_law _ _)) ∙ step.1)

    embed_computers-Fits :
        (b : Blueprint) (e e' : EChart) (t : TestbedTopology) (cs : List Computer)
        → placement_order p b ≡ ok cs
        → ChartReady cs e.hmap
        → embed_computers d p st b e t ≡ ok e'
        → Fits p e'.hmap
    unfolding embed_computers
    embed_computers-Fits b e e' t cs o h eq =
        let one = >>=-eq-ok (placement_order p b) _ eq in
        let two = >>=-eq-ok (switch_order d p st e t) _ one.2 in
        let three = >>=-eq-ok (fill_switches d p st two.0 _) _ two.2 in
        let same : one.0 ≡ cs = ok-injective (sym one.1 ∙ o) in
        let distinct : Distinct cs = placement_order-Distinct p b cs o in
        let fits : Fits p three.0.hmap =
          fill_switches-Fits d p st sl two.0 (record { hmap = e.hmap; left = one.0 }) three.0
            (subst Distinct (sym same) distinct)
            (subst (λ x. AllReady d p st sl x two.0) (sym same)
              (switch_order-AllReady e t cs two.0 h two.1))
            (All-map (λ x r. r.1) e.hmap h) three.1 in
        subst (λ (x : EChart). Fits p x.hmap) (finished three.0 e e' three.2) fits

    -- Where no host of a chart is overloaded or has a computer of the blueprint, no host is overloaded
    -- after the blueprint is embedded.
    pub embed-Fits :
        (b : Blueprint) (e e' : EChart) (t : TestbedTopology) (cs : List Computer)
        → placement_order p b ≡ ok cs
        → ChartReady cs e.hmap
        → embed d p st b e t ≡ ok e'
        → Fits p e'.hmap
    unfolding embed
    embed-Fits b e e' t cs o h eq =
        let one = >>=-eq-ok (embed_computers d p st b e t) _ eq in
        subst (Fits p) (sym (embed_networks-hmap b t b.networks one.0 e' one.2))
          (embed_computers-Fits b e one.0 t cs o h one.1)

    none_used : (f : Computer → ℕ) → total_of p f [] ≡ 0
    unfolding total_of sum64
    none_used f =
        ap p.reduce_sizes (pl.map_law (λ (e : Uuid × Computer). f e.1) []) ∙ pl.reduce_law []

    empty_host-fits : (h : Host) → overloaded (load p (empty_host h)) ≡ false
    unfolding load overloaded
    empty_host-fits h = ground (
      arith,
      none_used (λ c. c.cores),
      none_used (λ c. Memory.megabytes c.memory),
      none_used (λ c. (Computer.hwspec p c).net),
      none_used (λ c. Memory.megabytes c.disk),
    )

    add_hosts-Ready :
        (cs : List Computer) (hosts : Dict Uuid Host) (m : Dict Uuid HostEmbedding)
        → ChartReady cs m
        → ChartReady cs (add_hosts hosts m)
    unfolding add_hosts
    add_hosts-Ready cs [] m h = h
    add_hosts-Ready cs ((k, x) ∷ hosts) m h = add_hosts-Ready cs hosts _ (
        Dict.insert_or_assign-All (Ready p cs) (Host.id x) (empty_host x) m
          (Absent-nil cs, empty_host-fits x) h)

    -- A blueprint that is embedded in an empty testbed overloads none of its hosts.
    pub embed-of_topology-Fits :
        (b : Blueprint) (t : TestbedTopology) (e : EChart)
        → embed d p st b (of_topology t) t ≡ ok e
        → Fits p e.hmap
    embed-of_topology-Fits b t e eq = embed-Fits b (of_topology t) e t listed.0 listed.1 ready eq
      where
        listed : (cs : List Computer) × (placement_order p b ≡ ok cs)
        listed = placement_order-ok b (of_topology t) e t eq

        ready : ChartReady listed.0 (of_topology t).hmap
        ready = unfold of_topology in add_hosts-Ready listed.0 t.hosts [] tt
