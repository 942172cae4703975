-- ===== src/Materialize/Race.antt =====
-- Two threads in create of a LinearIdCacheMap (core/util.hxx).
use marinatb.Common.{
  ℕ, ◌≡◌, ◌≢◌, Bool, true, false, none, some, List, [], ◌∷◌, Eq, arith, ap, sym, ◌∙◌, refl,
  Option-cases, inl, inr, ==_refl,
}
use marinatb.Common.Dict
use marinatb.Materialize.Ids.{
  LinearIdCacheMap, Point, looking, counting, finished, lookup, counted, entered, assign, create,
  looked, advance, interleave,
}
use marinatb.Materialize.IdLaws.{create-new, create-old}

-- The first looks its key up and reads, the second does all of create, and the first goes on.
abbrev pub overtaken : List Bool
overtaken = false ∷ false ∷ true ∷ true ∷ true ∷ true ∷ false ∷ false ∷ []

-- The first does all of create, and then the second.
abbrev pub in_turn : List Bool
in_turn = false ∷ false ∷ false ∷ false ∷ true ∷ true ∷ true ∷ true ∷ []

module _ {K : Type 0} ⦃e : Eq K⦄ where
  -- The four steps of a thread that runs alone, from what it finds.
  abbrev goes_on : K → Point × LinearIdCacheMap K → Point × LinearIdCacheMap K
  goes_on k one =
      let two = advance k one.0 one.1 in
      let three = advance k two.0 two.1 in advance k three.0 three.1

  abbrev alone : K → LinearIdCacheMap K → Point × LinearIdCacheMap K
  alone k c = goes_on k (advance k looking c)

  abbrev ended : ℕ × LinearIdCacheMap K → Point × LinearIdCacheMap K
  ended r = (finished r.0, r.1)

  alone-create :
      (k : K) (c : LinearIdCacheMap K) → alone k c ≡ (finished (create k c).0, (create k c).1)
  unfolding advance assign
  alone-create k c = elim (Option-cases (lookup k c)) [
    | inl q ↦ ap (λ o. goes_on k (looked o c)) q ∙ ap ended (sym (create-new k c q))
    | inr (n, q) ↦ ap (λ o. goes_on k (looked o c)) q ∙ ap ended (sym (create-old k c n q))
  ]

  abbrev beside : Point → Point × LinearIdCacheMap K → Point × Point × LinearIdCacheMap K
  beside a y = (a, y.0, y.1)

  abbrev then_second : K → Point × LinearIdCacheMap K → Point × Point × LinearIdCacheMap K
  then_second j x = beside x.0 (alone j x.1)

  in_turn-creates :
      (k j : K) (c : LinearIdCacheMap K)
      → let first = create k c in
        let second = create j first.1 in
        interleave k j in_turn (looking, looking, c)
        ≡ (finished first.0, finished second.0, second.1)
  unfolding interleave
  in_turn-creates k j c =
      ap (then_second j) (alone-create k c)
      ∙ ap (beside (finished (create k c).0)) (alone-create j (create k c).1)

  -- The map after `overtaken`.
  abbrev last : K → K → LinearIdCacheMap K → LinearIdCacheMap K
  last k j c = entered k c.v (counted c.v (entered j c.v (counted c.v c)))

  overtaken-same :
      (k j : K) (c : LinearIdCacheMap K)
      → lookup k c ≡ none
      → lookup j c ≡ none
      → interleave k j overtaken (looking, looking, c) ≡ (finished c.v, finished c.v, last k j c)
  unfolding interleave advance
  overtaken-same k j c p q =
      ap
        (λ o.
          interleave k j (false ∷ true ∷ true ∷ true ∷ true ∷ false ∷ false ∷ [])
            ((looked o c).0, looking, (looked o c).1))
        p
      ∙ ap
          (λ o.
            interleave k j (true ∷ true ∷ true ∷ false ∷ false ∷ [])
              (counting c.v, (looked o c).0, (looked o c).1))
          q

  last-both :
      (k j : K) (c : LinearIdCacheMap K)
      → k ≢ j
      → (lookup k (last k j c) ≡ some c.v) × (lookup j (last k j c) ≡ some c.v)
  unfolding lookup entered counted
  last-both k j c d = (
    rw (Dict.find-insert_or_assign k k c.v (Dict.insert_or_assign j c.v c.m), ==_refl k) refl,
    ground (
      arith,
      e.beq_iff k j,
      Dict.find-insert_or_assign k j c.v (Dict.insert_or_assign j c.v c.m),
      Dict.find-insert_or_assign j j c.v c.m,
      ==_refl j,
    ),
  )

  -- Two threads that create two new keys at once can both return one id, which the map then has for both
  -- keys; where one starts after the other has ended, they do what two calls of create do.
  pub create-race :
      (k j : K) (c : LinearIdCacheMap K)
      → k ≢ j
      → lookup k c ≡ none
      → lookup j c ≡ none
      → ((end : LinearIdCacheMap K) × (interleave k j overtaken (looking, looking, c)
            ≡ (finished c.v, finished c.v, end))
          × (lookup k end ≡ some c.v)
          × (lookup j end ≡ some c.v))
        × (interleave k j in_turn (looking, looking, c) ≡ (
          finished (create k c).0,
          finished (create j (create k c).1).0,
          (create j (create k c).1).1,
        ))
  create-race k j c d p q =
      let both = last-both k j c d in
      ((last k j c, overtaken-same k j c p q, both.0, both.1), in_turn-creates k j c)
