-- ===== src/Common/Dict.antt =====
-- std::unordered_map as the list of its entries in iteration order, each key at most once.
use Prim.Native.Nat.{◌≤◌}
use mathlib.Core.Path.{sym, ◌∙◌, subst, ◌≡◌, refl}
use mathlib.Core.Logic.{◌≢◌, inl, inr}
use mathlib.Core.Bool.{Bool, true, false}
use mathlib.Core.List.{List, [], ◌∷◌, ◌++◌}
use mathlib.Core.Option.{Option, none, some}
use native.Mathlib.Omega.{arith}
use marinatb.Common.Tests.{if◌then◌else◌, Bool-cases}
use marinatb.Common.Lists.{All, find_if, length}
use marinatb.Common.Equality.{Eq, ◌==◌}

abbrev pub Dict {ℓ κ} : Type ℓ → Type κ → Type (ℓ ⊔ κ)
Dict K V = List (K × V)

module _ {ℓ κ} {K : Type ℓ} {V : Type κ} where
  -- `i->second` of an iterator that may be `end()`.
  abbrev pub second : Option (K × V) → Option V
  second none = none
  second (some (_, v)) = some v

module _ {ℓ κ} {K : Type ℓ} {V : Type κ} ⦃e : Eq K⦄ where
  unfoldable pub find : K → Dict K V → Option V
  find k [] = none
  find k ((j, v) ∷ m) = if j == k then some v else find k m

  unfoldable pub contains : K → Dict K V → Bool
  contains k [] = false
  contains k ((j, v) ∷ m) = if j == k then true else contains k m

  unfoldable pub insert_or_assign : K → V → Dict K V → Dict K V
  insert_or_assign k v [] = (k, v) ∷ []
  insert_or_assign k v ((j, w) ∷ m) = if j == k then (j, v) ∷ m else (j, w) ∷ insert_or_assign k v m

  -- Inserts where the key is missing, and leaves an entry that is there.
  unfoldable pub emplace : K → V → Dict K V → Dict K V
  emplace k v [] = (k, v) ∷ []
  emplace k v ((j, w) ∷ m) = if j == k then (j, w) ∷ m else (j, w) ∷ emplace k v m

  unfoldable pub erase : K → Dict K V → Dict K V
  erase k [] = []
  erase k ((j, w) ∷ m) = if j == k then erase k m else (j, w) ∷ erase k m

  -- A write through the iterator of an entry.
  unfoldable pub update : K → (V → V) → Dict K V → Dict K V
  update k f [] = []
  update k f ((j, w) ∷ m) = if j == k then (j, f w) ∷ m else (j, w) ∷ update k f m

  pub find-insert_or_assign :
      (k j : K) (v : V) (m : Dict K V)
      → find j (insert_or_assign k v m) ≡ (if k == j then some v else find j m)
  unfolding find insert_or_assign
  find-insert_or_assign k j v [] = refl
  find-insert_or_assign k j v ((i, w) ∷ m) =
      ground (arith, e.beq_iff k j, e.beq_iff i k, e.beq_iff i j, find-insert_or_assign k j v m)

  pub find-erase :
      (k j : K) (m : Dict K V) → find j (erase k m) ≡ (if k == j then none else find j m)
  unfolding find erase
  find-erase k j [] = ground arith
  find-erase k j ((i, w) ∷ m) =
      ground (arith, e.beq_iff k j, e.beq_iff i k, e.beq_iff i j, find-erase k j m)

  pub find-emplace :
      (k j : K) (v : V) (m : Dict K V)
      → find j (emplace k v m)
        ≡ (if k == j then some (elim (find k m) [ none ↦ v | some w ↦ w ]) else find j m)
  unfolding find emplace
  find-emplace k j v [] = refl
  find-emplace k j v ((i, w) ∷ m) =
      ground (arith, e.beq_iff k j, e.beq_iff i k, e.beq_iff i j, find-emplace k j v m)

  pub find-append :
      (k : K) (m n : Dict K V)
      → find k (m ++ n) ≡ elim (find k m) [ none ↦ find k n | some v ↦ some v ]
  unfolding find
  find-append k [] n = refl
  find-append k ((j, w) ∷ m) n = ground (arith, find-append k m n)

  pub insert_or_assign-absent :
      (k : K) (v : V) (m : Dict K V) → find k m ≡ none → insert_or_assign k v m ≡ m ++ (k, v) ∷ []
  unfolding find insert_or_assign
  insert_or_assign-absent k v [] h = refl
  insert_or_assign-absent k v ((j, w) ∷ m) h = ground (arith, insert_or_assign-absent k v m)

  pub erase-append_absent :
      (k : K) (v : V) (m : Dict K V) → find k m ≡ none → erase k (m ++ (k, v) ∷ []) ≡ m
  unfolding find erase
  erase-append_absent k v [] h = ground (arith, e.beq_iff k k)
  erase-append_absent k v ((j, w) ∷ m) h = ground (arith, erase-append_absent k v m)

  pub contains-find :
      (k : K) (m : Dict K V) → contains k m ≡ elim (find k m) [ none ↦ false | some v ↦ true ]
  unfolding find contains
  contains-find k [] = refl
  contains-find k ((j, w) ∷ m) = ground (arith, contains-find k m)

  pub find-All {μ} :
      (P : V → Type μ) (k : K) (m : Dict K V) (v : V) → All (λ e. P e.1) m → find k m ≡ some v → P v
  find-All P k [] v h e' = unfold find in cc
  find-All P k ((j, w) ∷ m) v h e' = elim (Bool-cases (j == k)) [
    | inl y ↦
        let hit : some w ≡ some v = unfold find in rw y at e' in
        let same : w ≡ v = cc in subst P same h.0
    | inr n ↦ find-All P k m v h.1 (unfold find in rw n at e')
  ]

  pub emplace-All {μ} :
      (P : V → Type μ) (k : K) (v : V) (m : Dict K V)
      → P v
      → All (λ e. P e.1) m
      → All (λ e. P e.1) (emplace k v m)
  unfolding emplace
  emplace-All P k v [] h a = (h, tt)
  emplace-All P k v ((j, w) ∷ m) h a = elim (Bool-cases (j == k)) [
    | inl y ↦ rw y a
    | inr n ↦ rw n (a.0, emplace-All P k v m h a.1)
  ]

  pub erase-All {μ} :
      (P : V → Type μ) (k : K) (m : Dict K V) → All (λ e. P e.1) m → All (λ e. P e.1) (erase k m)
  unfolding erase
  erase-All P k [] a = a
  erase-All P k ((j, w) ∷ m) a = elim (Bool-cases (j == k)) [
    | inl y ↦ rw y (erase-All P k m a.1)
    | inr n ↦ rw n (a.0, erase-All P k m a.1)
  ]

  pub update-All {μ} :
      (P : V → Type μ) (k : K) (f : V → V) (m : Dict K V)
      → ((v : V) → P v → P (f v))
      → All (λ e. P e.1) m
      → All (λ e. P e.1) (update k f m)
  unfolding update
  update-All P k f [] h a = a
  update-All P k f ((j, w) ∷ m) h a = elim (Bool-cases (j == k)) [
    | inl y ↦ rw y (h w a.0, a.1)
    | inr n ↦ rw n (a.0, update-All P k f m h a.1)
  ]

  pub insert_or_assign-All {μ} :
      (P : V → Type μ) (k : K) (v : V) (m : Dict K V)
      → P v
      → All (λ e. P e.1) m
      → All (λ e. P e.1) (insert_or_assign k v m)
  unfolding insert_or_assign
  insert_or_assign-All P k v [] h f = (h, tt)
  insert_or_assign-All P k v ((j, w) ∷ m) h f = elim (Bool-cases (j == k)) [
    | inl y ↦ rw y (h, f.1)
    | inr n ↦ rw n (f.0, insert_or_assign-All P k v m h f.1)
  ]

  -- No key stands twice.
  abbrev pub Unique : Dict K V → Type κ
  Unique [] = Unit
  Unique ((k, v) ∷ m) = (find k m ≡ none) × Unique m

  pub erase-absent : (k : K) (m : Dict K V) → find k m ≡ none → erase k m ≡ m
  unfolding find erase
  erase-absent k [] h = refl
  erase-absent k ((j, w) ∷ m) h = ground (arith, erase-absent k m)

  pub erase-Unique : (k : K) (m : Dict K V) → Unique m → Unique (erase k m)
  erase-Unique k [] u = unfold erase in tt
  erase-Unique k ((j, w) ∷ m) u = elim (Bool-cases (j == k)) [
    | inl y ↦ subst Unique (sym (erased y)) (erase-Unique k m u.1)
    | inr n ↦
        subst Unique (sym (kept n))
          (find-erase k j m ∙ cond_none (k == j) u.0, erase-Unique k m u.1)
  ]
    where
      erased : (j == k) ≡ true → erase k ((j, w) ∷ m) ≡ erase k m
      erased y = unfold erase in rw y

      kept : (j == k) ≡ false → erase k ((j, w) ∷ m) ≡ (j, w) ∷ erase k m
      kept n = unfold erase in rw n

      cond_none : (b : Bool) → find j m ≡ none → (if b then none else find j m) ≡ none
      cond_none true h = refl
      cond_none false h = h

  -- An entry that a search finds has its key in the map.
  pub find-of_find_if :
      (test : K × V → Bool) (m : Dict K V) (k : K) (v : V)
      → find_if test m ≡ some (k, v)
      → find k m ≢ none
  unfolding find find_if
  find-of_find_if test [] k v h n = cc
  find-of_find_if test ((j, w) ∷ m) k v h n =
      ground (arith, e.beq_iff j k, find-of_find_if test m k v)

  pub length-erase-le : (k : K) (m : Dict K V) → length (erase k m) ≤ length m
  unfolding erase
  length-erase-le k [] = omega arith
  length-erase-le k ((j, w) ∷ m) = ground (arith, length-erase-le k m)
