-- ===== src/Embed/Keyed.antt =====
-- The keys of a chart (core/embed.cxx): every entry stands under the id of its host or switch, once.
use marinatb.Common.{
  ℕ, zero, suc, ◌≡◌, List, [], ◌∷◌, Result, ok, err, ok-injective, >>=-eq-ok, subst, nat_eq,
}
use marinatb.Common.Keyed.{Keyed, insert_or_assign-Keyed}
use marinatb.Platform.{Double, Pipes, Std}
use marinatb.Ident.{Uuid}
use marinatb.Topo.Host
use marinatb.Topo.Host.{Host}
use marinatb.Embed.Load.{HostEmbedding}
use marinatb.Embed.Chart.{EChart, SwitchEmbedding}
use marinatb.Embed.Pack.{pack}
use marinatb.Embed.Fill.{Progress, place, round, fill, fill_switches}
use marinatb.Embed.Filling.{fill_cases}

abbrev pub host_key : HostEmbedding → Uuid
host_key he = Host.id he.host

abbrev pub switch_key : SwitchEmbedding → Uuid
switch_key se = se.sw.id

-- No key stands twice, and every entry stands under the id of its host or of its switch.
abbrev pub IsKeyed : EChart → Type 0
IsKeyed e = Keyed host_key e.hmap × Keyed switch_key e.smap

abbrev HostsKeyed : Result Progress → Type 0
HostsKeyed (err e) = Unit
HostsKeyed (ok g) = Keyed host_key g.hmap

place-Keyed :
    {F : Type 0} (p : Pipes F) (hosts : List HostEmbedding) (g : Progress)
    (r : List HostEmbedding × Progress)
    → Keyed host_key g.hmap
    → place p hosts g ≡ ok r
    → Keyed host_key r.1.hmap
unfolding place
place-Keyed p [] g r h e = cc
place-Keyed p (he ∷ others) g r h e =
    subst (λ (x : List HostEmbedding × Progress). Keyed host_key x.1.hmap) (ok-injective e)
      (insert_or_assign-Keyed host_key (pack p he g.left).0 g.hmap h)

module _ {F : Type 0} (d : Double F) (p : Pipes F) (st : Std) where
  fill-Keyed :
      (fuel : ℕ) (hosts : List HostEmbedding) (g : Progress)
      → Keyed host_key g.hmap
      → HostsKeyed (fill d p st fuel hosts g)
  unfolding round
  fill-Keyed zero hosts g h = unfold fill in h
  fill-Keyed (suc fuel) hosts g h =
      fill_cases d p st (λ r _. HostsKeyed r) fuel fuel hosts g (λ e. h) (λ x e. tt)
        (λ hosts' g' r e. place-Keyed p _ g (hosts', g') h r)
        λ hosts' g' r e. fill-Keyed fuel hosts' g' (place-Keyed p _ g (hosts', g') h r)

  pub fill_switches-Keyed :
      (sws : List (SwitchEmbedding × List HostEmbedding)) (g g' : Progress)
      → Keyed host_key g.hmap
      → fill_switches d p st sws g ≡ ok g'
      → Keyed host_key g'.hmap
  unfolding fill_switches
  fill_switches-Keyed [] g g' h e =
      subst (λ (x : Progress). Keyed host_key x.hmap) (ok-injective e) h
  fill_switches-Keyed ((se, hosts) ∷ sws) g g' h e =
      let one = >>=-eq-ok (fill d p st _ hosts g) _ e in
      let filled : Keyed host_key one.0.hmap = subst HostsKeyed one.1 (fill-Keyed _ hosts g h) in
      fill_switches-Keyed sws one.0 g' filled one.2
