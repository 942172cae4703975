-- ===== src/Materialize/IdLaws.antt =====
-- The ids of a LinearIdCacheMap (core/util.hxx).
use marinatb.Common.{
  ℕ, ◌⊎◌, ◌+◌, ◌≤◌, ◌<◌, ◌≡◌, ◌≢◌, refl, none, some, List, [], ◌∷◌, ok, ok-injective, Eq, arith,
  size_mod, length, Option-cases, inl, inr, out_of_range, runtime_error, Bool-cases, true, err,
  if◌then◌else◌, ◌==◌, ==_refl, ap, sym, ◌∙◌, subst,
}
use marinatb.Common.Dict
use marinatb.Materialize.Ids.{
  LinearIdCacheMap, Guarded, unlocked, Op, create_op, get_op, erase_op, empty, lookup, counted,
  entered, assign, create, get, erase, locked, called, run, unless_held, at_or_stuck,
}

module _ {K : Type 0} ⦃e : Eq K⦄ where
  -- Every id is below the next one, and no two keys have one id.
  abbrev pub Valid : LinearIdCacheMap K → Type 0
  Valid c =
      ((k : K) (n : ℕ) → Dict.find k c.m ≡ some n → n < c.v)
      × ((k j : K) (n : ℕ) → Dict.find k c.m ≡ some n → Dict.find j c.m ≡ some n → k ≡ j)

  assign-Valid :
      (k : K) (c : LinearIdCacheMap K) → c.v + 1 < size_mod → Valid c → Valid (assign k c).1
  unfolding assign counted entered
  assign-Valid k c h valid = (
    λ i n q. ground (arith, Dict.find-insert_or_assign k i c.v c.m, valid.0 i n),
    λ i j n q r. ground (
      arith,
      Dict.find-insert_or_assign k i c.v c.m,
      Dict.find-insert_or_assign k j c.v c.m,
      valid.0 i n,
      valid.0 j n,
      valid.1 i j n,
      e.beq_iff k i,
      e.beq_iff k j,
    ),
  )

  pub create-new : (k : K) (c : LinearIdCacheMap K) → lookup k c ≡ none → create k c ≡ assign k c
  unfolding create
  create-new k c h = rw (create, h)

  pub create-old :
      (k : K) (c : LinearIdCacheMap K) (n : ℕ) → lookup k c ≡ some n → create k c ≡ (n, c)
  unfolding create
  create-old k c n h = rw (create, h)

  pub create-Valid :
      (k : K) (c : LinearIdCacheMap K) → c.v + 1 < size_mod → Valid c → Valid (create k c).1
  create-Valid k c h valid = elim (Option-cases (lookup k c)) [
    | inl q ↦ rw (create-new k c q) (assign-Valid k c h valid)
    | inr (n, q) ↦ rw (create-old k c n q) valid
  ]

  pub create-v-le :
      (k : K) (c : LinearIdCacheMap K) → c.v + 1 < size_mod → (create k c).1.v ≤ c.v + 1
  unfolding assign counted entered
  create-v-le k c h = elim (Option-cases (lookup k c)) [
    | inl q ↦ rw (create-new k c q) (omega arith)
    | inr (n, q) ↦ rw (create-old k c n q) (omega arith)
  ]

  pub erase-Valid : (k : K) (c : LinearIdCacheMap K) → Valid c → Valid (erase k c)
  unfolding erase
  erase-Valid k c valid = (
    λ i n q. ground (arith, Dict.find-erase k i c.m, valid.0 i n),
    λ i j n q r. ground (arith, Dict.find-erase k i c.m, Dict.find-erase k j c.m, valid.1 i j n),
  )

  -- The three ways in which get ends: lk_ has the mutex, the key has no id, it has one.
  pub get_cases :
      (k : K) (g : Guarded K)
      → (get k g ≡ (err runtime_error, g))
        ⊎ ((get k g ≡ (err out_of_range, record g { lk_ = true })) × (Dict.find k g.ids.m ≡ none))
        ⊎ ((n : ℕ) × (get k g ≡ (ok n, g)) × (Dict.find k g.ids.m ≡ some n))
  unfolding get
  get_cases k g = elim (Bool-cases g.lk_) [
    | inl held ↦ inl (ap (λ b. unless_held b (at_or_stuck (Dict.find k g.ids.m) g) g) held)
    | inr free ↦
        let open_get = ap (λ b. unless_held b (at_or_stuck (Dict.find k g.ids.m) g) g) free in
        elim (Option-cases (Dict.find k g.ids.m)) [
          | inl q ↦ inr (inl (open_get ∙ ap (λ o. at_or_stuck o g) q, q))
          | inr (n, q) ↦ inr (inr (n, open_get ∙ ap (λ o. at_or_stuck o g) q, q))
        ]
  ]

  get-ids : (k : K) (g : Guarded K) → (get k g).1.ids ≡ g.ids
  get-ids k g = elim (get_cases k g) [
    | inl held ↦ ap (λ x. x.1.ids) held
    | inr (inl (missing, q)) ↦ ap (λ x. x.1.ids) missing
    | inr (inr (i, present, q)) ↦ ap (λ x. x.1.ids) present
  ]

  pub called-Valid :
      (op : Op K) (g : Guarded K)
      → g.ids.v + 1 < size_mod
      → Valid g.ids
      → Valid (called op g).ids × ((called op g).ids.v ≤ g.ids.v + 1)
  unfolding called locked erase
  called-Valid (create_op k) g h valid = elim (Bool-cases g.lk_) [
    | inl held ↦ rw held (valid, omega arith)
    | inr free ↦ rw free (create-Valid k g.ids h valid, create-v-le k g.ids h)
  ]
  called-Valid (get_op k) g h valid =
      subst (λ (c : LinearIdCacheMap K). Valid c × (c.v ≤ g.ids.v + 1)) (sym (get-ids k g))
        (valid, omega arith)
  called-Valid (erase_op k) g h valid = elim (Bool-cases g.lk_) [
    | inl held ↦ rw held (valid, omega arith)
    | inr free ↦ rw free (erase-Valid k g.ids valid, omega arith)
  ]

  run-Valid :
      (ops : List (Op K)) (g : Guarded K)
      → g.ids.v + length ops < size_mod
      → Valid g.ids
      → Valid (run ops g).ids
  unfolding run
  run-Valid [] g h valid = valid
  run-Valid (op ∷ ops) g h valid =
      let next = called-Valid op g (omega arith) valid in
      let grown = next.1 in run-Valid ops (called op g) (omega arith) next.0

  get-find : (k : K) (g : Guarded K) (n : ℕ) → (get k g).0 ≡ ok n → Dict.find k g.ids.m ≡ some n
  get-find k g n h = elim (get_cases k g) [
    | inl held ↦ let bad : err runtime_error ≡ ok n = ap (λ x. x.0) (sym held) ∙ h in cc
    | inr (inl (missing, q)) ↦
        let bad : err out_of_range ≡ ok n = ap (λ x. x.0) (sym missing) ∙ h in cc
    | inr (inr (i, present, q)) ↦
        let same : ok i ≡ ok n = ap (λ x. x.0) (sym present) ∙ h in q ∙ ap some (ok-injective same)
  ]

  -- After fewer than 2 ^ 64 calls on an empty map that do not overlap, different keys have different
  -- ids.
  pub run-distinct :
      (ops : List (Op K)) (k j : K) (n i : ℕ)
      → length ops < size_mod
      → k ≢ j
      → (get k (run ops (unlocked empty))).0 ≡ ok n
      → (get j (run ops (unlocked empty))).0 ≡ ok i
      → n ≢ i
  unfolding Dict.find
  run-distinct ops k j n i h d p q same =
      let valid = run-Valid ops (unlocked empty) (omega arith) (λ i x z. cc, λ i x y z w. cc) in
      let j_has : (get j (run ops (unlocked empty))).0 ≡ ok n = q ∙ ap ok (sym same) in
      d (valid.1 k j n (get-find k _ n p) (get-find j _ n j_has))

  lookup-assign : (k : K) (c : LinearIdCacheMap K) → lookup k (assign k c).1 ≡ some c.v
  unfolding lookup assign
  lookup-assign k c = rw (Dict.find-insert_or_assign k k c.v c.m, ==_refl k) refl

  lookup-get :
      (k : K) (c : LinearIdCacheMap K) (n : ℕ) → lookup k c ≡ some n → (get k (unlocked c)).0 ≡ ok n
  unfolding lookup get
  lookup-get k c n h = ap (λ o. (at_or_stuck o (unlocked c)).0) h

  lookup-create : (k : K) (c : LinearIdCacheMap K) → lookup k (create k c).1 ≡ some (create k c).0
  unfolding assign counted entered
  lookup-create k c = elim (Option-cases (lookup k c)) [
    | inl q ↦ rw (create-new k c q) (lookup-assign k c)
    | inr (n, q) ↦ rw (create-old k c n q) q
  ]

  -- After create, get returns the id that create returned, and another create of the key returns it
  -- again and changes nothing.
  pub create-get :
      (k : K) (c : LinearIdCacheMap K)
      → ((get k (unlocked (create k c).1)).0 ≡ ok (create k c).0)
        × (create k (create k c).1 ≡ create k c)
  create-get k c = (
    lookup-get k (create k c).1 (create k c).0 (lookup-create k c),
    create-old k (create k c).1 (create k c).0 (lookup-create k c),
  )

  lookup-entered :
      (k i : K) (n : ℕ) (c : LinearIdCacheMap K)
      → lookup i (entered k n c) ≡ (if k == i then some n else lookup i c)
  unfolding lookup entered
  lookup-entered k i n c = Dict.find-insert_or_assign k i n c.m
