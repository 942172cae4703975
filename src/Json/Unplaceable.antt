-- ===== src/Json/Unplaceable.antt =====
-- Embedding in a topology that was read from JSON (core/embed.cxx, core/topo.cxx).
use marinatb.Common.{
  ℕ, suc, ◌≡◌, refl, List, [], ◌∷◌, All, All-map, All-perm, Result, ok, err, undefined, >>=-eq-ok,
  ok-injective, subst, sym, ap, ◌∙◌, is_empty, if◌then◌else◌, sequence, sequence-All, runtime_error,
  length, List-cases, inl, inr, nat_eq,
}
use mathlib.Core.List.{Permᴰ}
use marinatb.Common.Dict
use marinatb.Common.Dict.{Dict}
use marinatb.Platform.{JsonLib, UuidLib, Inet, Double, Pipes, PipesLaws, Std, StdLaws}
use marinatb.Ident.{Uuid}
use marinatb.Blueprint.Computer.{Computer}
use marinatb.Blueprint.Store.{Blueprint}
use marinatb.Topo.Switch.{Switch}
use marinatb.Topo.Testbed.{TestbedTopology}
use marinatb.Topo.Connected.{connected_hosts}
use marinatb.Embed.Load.{HostEmbedding}
use marinatb.Embed.Chart
use marinatb.Embed.Chart.{EChart, SwitchEmbedding, add_switches}
use marinatb.Embed.Fill.{Progress, freer, place, round, fill, fill_switches}
use marinatb.Embed.Algorithm.{
  placement_order, embedding_of, with_hosts, switch_order, less_loaded, embed_computers, embed,
}
use marinatb.Json.Object.{Supply}
use marinatb.Json.Wholes.{to_topology}
use marinatb.Json.Severed.{Fresh, to_topology-severs}

perm_nil : {A : Type 0} {xs ys : List A} → Permᴰ xs ys → xs ≡ [] → ys ≡ []
perm_nil Permᴰ.nil e = refl
perm_nil (Permᴰ.cons h p) e = cc
perm_nil (Permᴰ.swap h g) e = cc
perm_nil (Permᴰ.trans p q) e = perm_nil q (perm_nil p e)

module _ {F : Type 0} (d : Double F) (p : Pipes F) (st : Std) (sl : StdLaws st) where
  round-no_hosts : (g : Progress) → round d p st [] g ≡ err undefined
  unfolding round place
  round-no_hosts g = rw (perm_nil (sl.sort_law (freer d p st) []) refl)

  fill_left-no_hosts :
      (fuel : ℕ) (m : Dict Uuid HostEmbedding) (left : List Computer) (g : Progress)
      → fill d p st (suc fuel) [] (record { hmap = m; left = left }) ≡ ok g
      → g ≡ record { hmap = m; left = left }
  unfolding fill
  fill_left-no_hosts fuel m [] g h = sym (ok-injective h)
  fill_left-no_hosts fuel m (c ∷ cs) g h =
      let bad : ◌≡◌ {A = Result Progress} (err undefined) (ok g) =
        rw (fill, round-no_hosts _) at h in
      cc

  -- A switch without hosts takes nothing: the loop ends at once, or reads the front of an empty vector.
  fill-no_hosts : (fuel : ℕ) (g g' : Progress) → fill d p st (suc fuel) [] g ≡ ok g' → g' ≡ g
  fill-no_hosts fuel g g' h = fill_left-no_hosts fuel g.hmap g.left g' h

  fill_switches-no_hosts :
      (sws : List (SwitchEmbedding × List HostEmbedding)) (g g' : Progress)
      → All (λ x. x.1 ≡ []) sws
      → fill_switches d p st sws g ≡ ok g'
      → g' ≡ g
  unfolding fill_switches
  fill_switches-no_hosts [] g g' a h = sym (ok-injective h)
  fill_switches-no_hosts ((se, hosts) ∷ sws) g g' a h =
      let one = >>=-eq-ok (fill d p st (suc (length g.left)) hosts g) _ h in
      let same =
        fill-no_hosts (length g.left) g one.0
          (subst (λ x. fill d p st (suc (length g.left)) x g ≡ ok one.0) a.0 one.1) in
      fill_switches-no_hosts sws one.0 g' a.1 one.2 ∙ same

no_results : {A : Type 0} → sequence {A = A} [] ≡ ok []
unfolding sequence
no_results = refl

all_placed :
    {A : Type 0} (g : Progress) (x y : A)
    → (if is_empty g.left then ok x else err runtime_error) ≡ ok y
    → g.left ≡ []
all_placed g x y h = elim (List-cases g.left) [
  | inl e ↦ e
  | inr (c, cs, e) ↦ let bad : ◌≡◌ {A = Result _} (err runtime_error) (ok y) = rw e at h in cc
]

module _ (st : Std) (t : TestbedTopology) where
  -- No switch of the chart has a host.
  abbrev pub Hostless : Dict Uuid SwitchEmbedding → Type 0
  Hostless m = All (λ e. connected_hosts st t e.1.sw ≡ []) m

  add_switches-Hostless :
      (ss : Dict Uuid Switch) (m : Dict Uuid SwitchEmbedding)
      → All (λ e. connected_hosts st t e.1 ≡ []) ss
      → Hostless m
      → Hostless (add_switches ss m)
  unfolding add_switches
  add_switches-Hostless [] m a h = h
  add_switches-Hostless ((k, x) ∷ ss) m a h = add_switches-Hostless ss _ a.1 (
      Dict.insert_or_assign-All (λ (se : SwitchEmbedding). connected_hosts st t se.sw ≡ []) x.id
        (record { sw = x; networks = [] }) m a.0 h)

module _ {F : Type 0} (d : Double F) (p : Pipes F) (pl : PipesLaws p) (st : Std)
    (sl : StdLaws st) where
  hosts_read :
      (e : EChart) (t : TestbedTopology) (x : Uuid × SwitchEmbedding)
      → connected_hosts st t x.1.sw ≡ []
      → (r : SwitchEmbedding × List HostEmbedding) → with_hosts p st e t x ≡ ok r
      → r.1 ≡ []
  hosts_read e t (k, se) q r s =
      ap (λ (y : SwitchEmbedding × List HostEmbedding). y.1) (sym (ok-injective step.2)) ∙ nothing
    where
      step :
          (hes : List HostEmbedding) × (sequence
              (p.map (embedding_of e) (connected_hosts st t se.sw))
            ≡ ok hes)
          × (ok (se, hes) ≡ ok r)
      step = >>=-eq-ok _ _ s

      mapped : p.map (embedding_of e) (connected_hosts st t se.sw) ≡ []
      mapped = ap (p.map (embedding_of e)) q ∙ pl.map_law (embedding_of e) []

      nothing : step.0 ≡ []
      nothing = ok-injective (sym step.1 ∙ ap sequence mapped ∙ no_results)

  switch_order-no_hosts :
      (e : EChart) (t : TestbedTopology) (sws : List (SwitchEmbedding × List HostEmbedding))
      → Hostless st t e.smap
      → switch_order d p st e t ≡ ok sws
      → All (λ x. x.1 ≡ []) sws
  unfolding switch_order
  switch_order-no_hosts e t sws a h =
      let one = >>=-eq-ok (sequence (p.map (with_hosts p st e t) e.smap)) _ h in
      let empty =
        sequence-All (λ x. x.1 ≡ []) (with_hosts p st e t) e.smap one.0
          (All-map (λ x q r s. hosts_read e t x q r s) e.smap a)
          (ap sequence (sym (pl.map_law _ _)) ∙ one.1) in
      subst (All (λ x. x.1 ≡ [])) (ok-injective one.2)
        (All-perm _ (pl.sort_law (less_loaded d p) one.0) empty)

  -- If embed returns for a topology that was read from JSON, there was no computer to place; no link of
  -- the topology names an id that is drawn.
  pub embed-severed :
      {J : Type 0} (l : JsonLib J) (u : UuidLib) (o : Inet) (s : Supply) (j : J)
      (t : TestbedTopology) (b : Blueprint) (e : EChart)
      → to_topology l u o s j ≡ ok t
      → Fresh s t.links
      → embed d p st b (Chart.of_topology t) t ≡ ok e
      → placement_order p b ≡ ok []
  unfolding embed embed_computers Chart.of_topology
  embed-severed l u o s j t b e h f q =
      let placed = >>=-eq-ok (embed_computers d p st b (Chart.of_topology t) t) _ q in
      let one = >>=-eq-ok (placement_order p b) _ placed.1 in
      let two = >>=-eq-ok (switch_order d p st (Chart.of_topology t) t) _ one.2 in
      let three = >>=-eq-ok (fill_switches d p st two.0 _) _ two.2 in
      let hostless =
        add_switches-Hostless st t t.switches [] (to_topology-severs l u o st s j t h f) tt in
      let empty = switch_order-no_hosts (Chart.of_topology t) t two.0 hostless two.1 in
      let same = fill_switches-no_hosts d p st sl two.0 _ three.0 empty three.1 in
      one.1 ∙ ap ok (ap (λ (g : Progress). g.left) (sym same) ∙ all_placed three.0 _ _ three.2)
