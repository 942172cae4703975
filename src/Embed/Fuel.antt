-- ===== src/Embed/Fuel.antt =====
-- The end of the loop over the hosts of a switch (core/embed.cxx).
use marinatb.Common.{
  Exception, sym, List-cases, ◌≢◌, ◌∙◌, ℕ, zero, suc, ◌≤◌, ◌<◌, ◌≡◌, refl, List, [], ◌∷◌, Result,
  ok, err, ok-injective, length, length-append, arith, ap, subst, inl, inr,
}
use marinatb.Platform.{Double, Pipes, Std}
use marinatb.Blueprint.Computer.{Computer}
use marinatb.Embed.Load.{HostEmbedding}
use marinatb.Embed.Pack.{pack}
use marinatb.Embed.Packing.{taken, taken-append-pack}
use marinatb.Embed.Fill.{Progress, place, round, fill}
use marinatb.Embed.Filling.{fill_cases}

length-pack-le :
    {F : Type 0} (p : Pipes F) (he : HostEmbedding) (cs : List Computer)
    → length (pack p he cs).1 ≤ length cs
length-pack-le p he cs =
    omega
      (arith, ap length (taken-append-pack p he cs), length-append (taken p he cs) (pack p he cs).1)

place-length :
    {F : Type 0} (p : Pipes F) (hosts : List HostEmbedding) (g : Progress)
    (r : List HostEmbedding × Progress)
    → place p hosts g ≡ ok r
    → length r.1.left ≤ length g.left
unfolding place
place-length p [] g r e = cc
place-length p (he ∷ others) g r e =
    subst (λ (x : List HostEmbedding × Progress). length x.1.left ≤ length g.left) (ok-injective e)
      (length-pack-le p he g.left)

module _ {F : Type 0} (d : Double F) (p : Pipes F) (st : Std) where
  round-length :
      (hosts : List HostEmbedding) (g : Progress) (r : List HostEmbedding × Progress)
      → round d p st hosts g ≡ ok r
      → length r.1.left ≤ length g.left
  unfolding round
  round-length hosts g r e = place-length p _ g r e

  -- Two amounts of fuel above the number of machines left give the same: the loop needs no more rounds.
  pub fill-enough :
      (fuel fuel' : ℕ) (hosts : List HostEmbedding) (g : Progress)
      → length g.left < fuel
      → length g.left < fuel'
      → fill d p st fuel hosts g ≡ fill d p st fuel' hosts g
  fill-enough zero fuel' hosts g h h' = absurd (omega arith)
  fill-enough (suc fuel) zero hosts g h h' = absurd (omega arith)
  fill-enough (suc fuel) (suc fuel') hosts g h h' =
      fill_cases d p st (λ r r'. r ≡ r') fuel fuel' hosts g (λ e. refl) (λ x e. refl)
        (λ hosts' g' r e. refl)
        λ hosts' g' r e.
          let shorter : length g'.left ≤ length g.left = round-length hosts g (hosts', g') r in
          fill-enough fuel fuel' hosts' g' (omega arith) (omega arith)

  -- The loop as it runs, round by round, with how it ends.
  pub data Loop : List HostEmbedding → Progress → Result Progress → Type 0 where
    nothing_left : (hosts : List HostEmbedding) (g : Progress) → g.left ≡ [] → Loop hosts g (ok g)
    throws :
        (hosts : List HostEmbedding) (g : Progress) (e : Exception)
        → g.left ≢ []
        → round d p st hosts g ≡ err e
        → Loop hosts g (err e)
    idle :
        (hosts hosts' : List HostEmbedding) (g g' : Progress)
        → g.left ≢ []
        → round d p st hosts g ≡ ok (hosts', g')
        → length g'.left ≡ length g.left
        → Loop hosts g (ok g')
    goes_on :
        (hosts hosts' : List HostEmbedding) (g g' : Progress) (r : Result Progress)
        → round d p st hosts g ≡ ok (hosts', g')
        → length g'.left < length g.left
        → Loop hosts' g' r
        → Loop hosts g r

  fill-done :
      (fuel : ℕ) (hosts : List HostEmbedding) (g : Progress)
      → g.left ≡ []
      → fill d p st (suc fuel) hosts g ≡ ok g
  unfolding fill
  fill-done fuel hosts g e = rw e refl

  -- With more fuel than machines left, the loop over the hosts of a switch runs round by round, each with
  -- what the one before it left, as long as a round places a machine, and ends at the first that throws,
  -- that places none, or that would have none to place.
  pub fill-Loop :
      (fuel : ℕ) (hosts : List HostEmbedding) (g : Progress)
      → length g.left < fuel
      → Loop hosts g (fill d p st fuel hosts g)
  fill-Loop zero hosts g h = absurd (omega arith)
  fill-Loop (suc fuel) hosts g h = elim (List-cases g.left) [
    | inl e ↦ subst (Loop hosts g) (sym (fill-done fuel hosts g e)) (Loop.nothing_left hosts g e)
    | inr (c, cs, e) ↦
        let more : g.left ≢ [] = λ q. let bad : c ∷ cs ≡ [] = sym e ∙ q in cc in
        fill_cases d p st (λ r _. Loop hosts g r) fuel fuel hosts g (λ q. absurd (more q))
          (λ x r. Loop.throws hosts g x more r)
          (λ hosts' g' r q. Loop.idle hosts hosts' g g' more r (sym q))
          λ hosts' g' r q.
            let shorter : length g'.left ≤ length g.left = round-length hosts g (hosts', g') r in
            Loop.goes_on hosts hosts' g g' _ r
              (omega (arith, shorter, λ (s : length g.left ≡ length g'.left). q s))
              (fill-Loop fuel hosts' g' (omega arith))
  ]
