-- ===== src/Embed/Safety.antt =====
-- Filling and the load of hosts (core/embed.cxx).
use marinatb.Common.{
  ℕ, zero, suc, ◌≡◌, refl, List, [], ◌∷◌, ◌++◌, All, All-map, All-perm, Result, ok, err,
  ok-injective, >>=-eq-ok, subst, sym, length, ◌∙◌, ap,
}
use mathlib.Core.List.{append_assoc}
use marinatb.Platform.{Double, Pipes, Std, StdLaws}
use marinatb.Blueprint.Computer.{Computer}
use marinatb.Embed.Load.{HostEmbedding}
use marinatb.Embed.Chart.{SwitchEmbedding}
use marinatb.Embed.Packing.{Distinct}
use marinatb.Embed.Fill.{Progress, freer, round, fill, fill_switches}
use marinatb.Embed.Filling.{fill_cases, Ready, Ready-suffix, Fits, Suffix, Safe, After, place-Safe}

module _ {F : Type 0} (d : Double F) (p : Pipes F) (st : Std) (laws : StdLaws st) where
  Suffix-trans : (xs ys zs : List Computer) → Suffix p xs ys → Suffix p ys zs → Suffix p xs zs
  Suffix-trans xs ys zs (a, e) (b, f) = (a ++ b, e ∙ ap (◌++◌ a) f ∙ sym (append_assoc a b zs))

  round-Safe :
      (hosts : List HostEmbedding) (g : Progress) (r : List HostEmbedding × Progress)
      → Safe p hosts g
      → round d p st hosts g ≡ ok r
      → After p g r
  unfolding round
  round-Safe hosts g r s e = place-Safe p _ g r sorted e
    where
      sorted : Safe p (st.sort (freer d p st) hosts) g
      sorted = record {
        distinct = s.distinct;
        ready = All-perm (Ready p g.left) (laws.sort_law (freer d p st) hosts) s.ready;
        fits = s.fits;
      }

  -- What the loop over the hosts of a switch leaves.
  abbrev Filled : Progress → Result Progress → Type 0
  Filled g (err x) = Unit
  Filled g (ok g') = Distinct g'.left × Fits p g'.hmap × Suffix p g.left g'.left

  Filled-trans :
      (g g' : Progress) (r : Result Progress) → Suffix p g.left g'.left → Filled g' r → Filled g r
  Filled-trans g g' (err x) s h = tt
  Filled-trans g g' (ok g'') s h = (h.0, h.1, Suffix-trans _ _ _ s h.2)

  fill-Filled :
      (fuel : ℕ) (hosts : List HostEmbedding) (g : Progress)
      → Safe p hosts g
      → Filled g (fill d p st fuel hosts g)
  fill-Filled zero hosts g s = unfold fill in (s.distinct, s.fits, ([], refl))
  fill-Filled (suc fuel) hosts g s =
      fill_cases d p st (λ r _. Filled g r) fuel fuel hosts g
        (λ e. (s.distinct, s.fits, ([], refl))) (λ x e. tt)
        (λ hosts' g' r e.
          let after = round-Safe hosts g (hosts', g') s r in
          (after.0.distinct, after.0.fits, after.1))
        λ hosts' g' r b.
          let after = round-Safe hosts g (hosts', g') s r in
          Filled-trans g g' _ after.1 (fill-Filled fuel hosts' g' after.0)

  -- The hosts of every switch that is still to be filled can take machines.
  abbrev pub AllReady : List Computer → List (SwitchEmbedding × List HostEmbedding) → Type 0
  AllReady left = All λ sw. All (Ready p left) sw.1

  pub fill_switches-Fits :
      (sws : List (SwitchEmbedding × List HostEmbedding)) (g g' : Progress)
      → Distinct g.left
      → AllReady g.left sws
      → Fits p g.hmap
      → fill_switches d p st sws g ≡ ok g'
      → Fits p g'.hmap
  fill_switches-Fits [] g g' ds rs f e =
      let same : g ≡ g' = unfold fill_switches in ok-injective e in
      subst (λ (x : Progress). Fits p x.hmap) same f
  fill_switches-Fits ((se, hosts) ∷ sws) g g' ds rs f e =
      fill_switches-Fits sws mid g' kept.0 (All-map (λ sw. Ready-suffix p sw.1 kept.2) sws rs.1)
        kept.1 step.2
    where
      step :
          (m : Progress) × (fill d p st (suc (length g.left)) hosts g ≡ ok m)
          × (fill_switches d p st sws m ≡ ok g')
      step = >>=-eq-ok _ _ (unfold fill_switches in e)

      mid : Progress
      mid = step.0

      kept : Filled g (ok mid)
      kept = subst (Filled g) step.1 (
          fill-Filled (suc (length g.left)) hosts g
            (record { distinct = ds; ready = rs.0; fits = f }))
