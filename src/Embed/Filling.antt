-- ===== src/Embed/Filling.antt =====
-- The loops that fill the hosts (core/embed.cxx): cases, termination, and what they keep.
use marinatb.Common.{
  ℕ, suc, ◌≡◌, ◌≢◌, false, List, [], ◌∷◌, ◌++◌, nat_eq, All, All-map, All-suffix, Bool-cases,
  List-cases, Result-cases, ok-injective, inl, inr, length, Result, ok, err, Exception, nat_beq,
  nat_beq_iff, subst, sym,
}
use marinatb.Common.Dict
use marinatb.Common.Dict.{Dict}
use marinatb.Platform.{Double, Pipes, Std}
use marinatb.Ident.{Uuid}
use marinatb.Blueprint.Computer.{Computer}
use marinatb.Topo.Host
use marinatb.Embed.Load.{HostEmbedding, load, overloaded, add_machine}
use marinatb.Embed.Pack.{pack}
use marinatb.Embed.Packing.{
  Absent, Distinct, taken, taken-append-pack, pack-full, pack-more, Absent-grown, pack-fits,
}
use marinatb.Embed.Fill.{Progress, place, round, fill}

module _ {F : Type 0} (d : Double F) (p : Pipes F) (st : Std) where
  -- The four ways in which a run of the loop goes on, at two amounts of fuel.
  pub fill_cases {ℓ} :
      (P : Result Progress → Result Progress → Type ℓ) (fuel fuel' : ℕ) (hosts : List HostEmbedding)
      (g : Progress)
      → (g.left ≡ [] → P (ok g) (ok g))
      → ((e : Exception) → round d p st hosts g ≡ err e → P (err e) (err e))
      → ((hosts' : List HostEmbedding) (g' : Progress)
          → round d p st hosts g ≡ ok (hosts', g')
          → length g.left ≡ length g'.left
          → P (ok g') (ok g'))
      → ((hosts' : List HostEmbedding) (g' : Progress)
          → round d p st hosts g ≡ ok (hosts', g')
          → length g.left ≢ length g'.left
          → P (fill d p st fuel hosts' g') (fill d p st fuel' hosts' g'))
      → P (fill d p st (suc fuel) hosts g) (fill d p st (suc fuel') hosts g)
  unfolding fill
  fill_cases P fuel fuel' hosts g empty fails stuck more = elim (List-cases g.left) [
    | inl e ↦ rw (e, fill) (empty e)
    | inr (c, cs, e) ↦ elim (Result-cases (round d p st hosts g)) [
      | inl (x, r) ↦ rw (e, r, fill) (fails x r)
      | inr (a, r) ↦ elim (Bool-cases (nat_beq (length g.left) (length a.1.left))) [
        | inl b ↦ rw (e, r, b, fill) (stuck a.0 a.1 r ((nat_beq_iff _ _).0 b))
        | inr b ↦ rw (e, r, b, fill) (more a.0 a.1 r (λ q. cc ((nat_beq_iff _ _).1 q)))
      ]
    ]
  ]

module _ {F : Type 0} (p : Pipes F) where
  pub pack-Absent :
      (he : HostEmbedding) (cs : List Computer)
      → Absent he.machines cs
      → Distinct cs
      → Absent (pack p he cs).0.machines (pack p he cs).1
  pack-Absent he [] a ds = unfold pack in tt
  pack-Absent he (c ∷ cs) a ds = elim (Bool-cases (overloaded (load p (add_machine he c)))) [
    | inl full ↦ leaves (he, c ∷ cs) (pack-full p he c cs a.0 full) a
    | inr fits ↦
        leaves (pack p (add_machine he c) cs) (pack-more p he c cs fits)
          (pack-Absent (add_machine he c) cs (Absent-grown p he c cs a ds) ds.1)
  ]
    where
      leaves :
          (r : HostEmbedding × List Computer)
          → pack p he (c ∷ cs) ≡ r
          → Absent r.0.machines r.1
          → Absent (pack p he (c ∷ cs)).0.machines (pack p he (c ∷ cs)).1
      leaves r e h =
          subst (λ (r : HostEmbedding × List Computer). Absent r.0.machines r.1) (sym e) h

  pub Distinct-suffix : (xs ys : List Computer) → Distinct (xs ++ ys) → Distinct ys
  Distinct-suffix [] ys h = h
  Distinct-suffix (x ∷ xs) ys h = Distinct-suffix xs ys h.1

  -- A host that can take machines from the list, and is not overloaded.
  abbrev pub Ready : List Computer → HostEmbedding → Type 0
  Ready left he = Absent he.machines left × (overloaded (load p he) ≡ false)

  abbrev pub Fits : Dict Uuid HostEmbedding → Type 0
  Fits = All λ e. overloaded (load p e.1) ≡ false

  -- What is left is the end of what was left before.
  abbrev pub Suffix : List Computer → List Computer → Type 0
  Suffix old new = (moved : List Computer) × (old ≡ moved ++ new)

  pub Ready-suffix :
      {old new : List Computer} (hosts : List HostEmbedding)
      → Suffix old new
      → All (Ready old) hosts
      → All (Ready new) hosts
  Ready-suffix {new} hosts (moved, e) h =
      All-map (λ he r. (All-suffix _ moved new (subst (Absent he.machines) e r.0), r.1)) hosts h

  -- The machines that are left are distinct, every host of the list can take them, and no host of the
  -- map is overloaded.
  pub record Safe (hosts : List HostEmbedding) (g : Progress) : Type 0 where
    pub distinct : Distinct g.left
    pub ready : All (Ready g.left) hosts
    pub fits : Fits g.hmap

  -- What a round leaves, and that it leaves the end of what there was.
  abbrev pub After : Progress → List HostEmbedding × Progress → Type 0
  After g r = Safe r.0 r.1 × Suffix g.left r.1.left

  pub place-Safe :
      (hosts : List HostEmbedding) (g : Progress) (r : List HostEmbedding × Progress)
      → Safe hosts g
      → place p hosts g ≡ ok r
      → After g r
  place-Safe [] g r s e = unfold place in cc
  place-Safe (he ∷ others) g r s e = subst (After g) same after
    where
      moved : Suffix g.left (pack p he g.left).1
      moved = (taken p he g.left, taken-append-pack p he g.left)

      packed : List HostEmbedding × Progress
      packed = (
        (pack p he g.left).0 ∷ others,
        record {
          hmap =
              Dict.insert_or_assign (Host.id (pack p he g.left).0.host) (pack p he g.left).0 g.hmap;
          left = (pack p he g.left).1;
        },
      )

      same : packed ≡ r
      same = unfold place in ok-injective e

      unloaded : overloaded (load p (pack p he g.left).0) ≡ false
      unloaded = pack-fits p he g.left s.ready.0.0 s.distinct s.ready.0.1

      after : After g packed
      after = (
        record {
          distinct = Distinct-suffix moved.0 _ (subst Distinct moved.1 s.distinct);
          ready = (
            (pack-Absent he g.left s.ready.0.0 s.distinct, unloaded),
            Ready-suffix others moved s.ready.1,
          );
          fits =
              Dict.insert_or_assign-All (λ e. overloaded (load p e) ≡ false) _ _ g.hmap unloaded
                s.fits;
        },
        moved,
      )
