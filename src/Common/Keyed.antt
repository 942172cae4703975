-- ===== src/Common/Keyed.antt =====
-- Maps whose entries stand under a key that their value has, as the id of a component.
use mathlib.Core.Path.{sym, ◌∙◌, subst, ◌≡◌, refl}
use mathlib.Core.Logic.{inl, inr}
use mathlib.Core.Bool.{true, false}
use mathlib.Core.List.{[], ◌∷◌}
use mathlib.Core.Option.{none}
use native.Mathlib.Omega.{arith}
use marinatb.Common.Tests.{Bool-cases}
use marinatb.Common.Lists.{All}
use marinatb.Common.Equality.{Eq, ◌==◌}
use marinatb.Common.Dict.{
  Dict, find, insert_or_assign, emplace, erase, update, Unique, find-insert_or_assign, find-emplace,
  erase-Unique,
}

module _ {ℓ κ} {K : Type ℓ} {V : Type κ} ⦃e : Eq K⦄ where
  pub insert_or_assign-Unique :
      (k : K) (v : V) (m : Dict K V) → Unique m → Unique (insert_or_assign k v m)
  insert_or_assign-Unique k v [] u = unfold insert_or_assign find in (refl, tt)
  insert_or_assign-Unique k v ((j, w) ∷ m) u = elim (Bool-cases (j == k)) [
    | inl y ↦ subst Unique (sym (there y)) (u.0, u.1)
    | inr n ↦ subst Unique (sym (later n)) (absent n, insert_or_assign-Unique k v m u.1)
  ]
    where
      there : (j == k) ≡ true → insert_or_assign k v ((j, w) ∷ m) ≡ (j, v) ∷ m
      there y = unfold insert_or_assign in rw y

      later : (j == k) ≡ false → insert_or_assign k v ((j, w) ∷ m) ≡ (j, w) ∷ insert_or_assign k v m
      later n = unfold insert_or_assign in rw n

      absent : (j == k) ≡ false → find j (insert_or_assign k v m) ≡ none
      absent n =
          let other : (k == j) ≡ false = ground (arith, e.beq_iff j k, e.beq_iff k j) in
          find-insert_or_assign k j v m ∙ rw other u.0

  find-nil : (k : K) → find {V = V} k [] ≡ none
  unfolding find
  find-nil k = refl

  emplace-Unique : (k : K) (v : V) (m : Dict K V) → Unique m → Unique (emplace k v m)
  unfolding emplace
  emplace-Unique k v [] u = (find-nil k, tt)
  emplace-Unique k v ((j, w) ∷ m) u = elim (Bool-cases (j == k)) [
    | inl y ↦ rw y (u.0, u.1)
    | inr n ↦
        let other : (k == j) ≡ false = ground (arith, e.beq_iff j k, e.beq_iff k j) in
        rw n (find-emplace k j v m ∙ rw other u.0, emplace-Unique k v m u.1)
  ]

  -- Every entry stands under the key of its value, and no key stands twice.
  abbrev pub Keyed : (V → K) → Dict K V → Type (ℓ ⊔ κ)
  Keyed key m = All (λ e. e.0 ≡ key e.1) m × Unique m

  keys_agree :
      (key : V → K) (v : V) (m : Dict K V)
      → All (λ e. e.0 ≡ key e.1) m
      → All (λ e. e.0 ≡ key e.1) (insert_or_assign (key v) v m)
  unfolding insert_or_assign
  keys_agree key v [] h = (refl, tt)
  keys_agree key v ((j, w) ∷ m) h = elim (Bool-cases (j == key v)) [
    | inl y ↦ rw y ((e.beq_iff j (key v)).0 y, h.1)
    | inr n ↦ rw n (h.0, keys_agree key v m h.1)
  ]

  pub insert_or_assign-Keyed :
      (key : V → K) (v : V) (m : Dict K V) → Keyed key m → Keyed key (insert_or_assign (key v) v m)
  insert_or_assign-Keyed key v m h =
      (keys_agree key v m h.0, insert_or_assign-Unique (key v) v m h.1)

  erased_agree :
      (key : V → K) (k : K) (m : Dict K V)
      → All (λ e. e.0 ≡ key e.1) m
      → All (λ e. e.0 ≡ key e.1) (erase k m)
  unfolding erase
  erased_agree key k [] h = tt
  erased_agree key k ((j, w) ∷ m) h = elim (Bool-cases (j == k)) [
    | inl y ↦ rw y (erased_agree key k m h.1)
    | inr n ↦ rw n (h.0, erased_agree key k m h.1)
  ]

  pub erase-Keyed : (key : V → K) (k : K) (m : Dict K V) → Keyed key m → Keyed key (erase k m)
  erase-Keyed key k m h = (erased_agree key k m h.0, erase-Unique k m h.1)

  emplaced_agree :
      (key : V → K) (v : V) (m : Dict K V)
      → All (λ e. e.0 ≡ key e.1) m
      → All (λ e. e.0 ≡ key e.1) (emplace (key v) v m)
  unfolding emplace
  emplaced_agree key v [] h = (refl, tt)
  emplaced_agree key v ((j, w) ∷ m) h = elim (Bool-cases (j == key v)) [
    | inl y ↦ rw y (h.0, h.1)
    | inr n ↦ rw n (h.0, emplaced_agree key v m h.1)
  ]

  pub emplace-Keyed :
      (key : V → K) (v : V) (m : Dict K V) → Keyed key m → Keyed key (emplace (key v) v m)
  emplace-Keyed key v m h = (emplaced_agree key v m h.0, emplace-Unique (key v) v m h.1)

  -- A write through an iterator keeps the keys.
  find-update-absent :
      (k j : K) (f : V → V) (m : Dict K V) → find j m ≡ none → find j (update k f m) ≡ none
  unfolding find update
  find-update-absent k j f [] h = h
  find-update-absent k j f ((i, w) ∷ m) h = ground (arith, find-update-absent k j f m)

  update-Unique : (k : K) (f : V → V) (m : Dict K V) → Unique m → Unique (update k f m)
  unfolding update
  update-Unique k f [] u = u
  update-Unique k f ((j, w) ∷ m) u = elim (Bool-cases (j == k)) [
    | inl y ↦ rw y u
    | inr n ↦ rw n (find-update-absent k j f m u.0, update-Unique k f m u.1)
  ]

  updated_agree :
      (key : V → K) (k : K) (f : V → V) (m : Dict K V)
      → ((v : V) → k ≡ key v → key (f v) ≡ key v)
      → All (λ e. e.0 ≡ key e.1) m
      → All (λ e. e.0 ≡ key e.1) (update k f m)
  unfolding update
  updated_agree key k f [] same h = tt
  updated_agree key k f ((j, w) ∷ m) same h = elim (Bool-cases (j == k)) [
    | inl y ↦ rw y (h.0 ∙ sym (same w (sym ((e.beq_iff j k).0 y) ∙ h.0)), h.1)
    | inr n ↦ rw n (h.0, updated_agree key k f m same h.1)
  ]

  pub update-Keyed :
      (key : V → K) (k : K) (f : V → V) (m : Dict K V)
      → ((v : V) → k ≡ key v → key (f v) ≡ key v)
      → Keyed key m
      → Keyed key (update k f m)
  update-Keyed key k f m same h = (updated_agree key k f m same h.0, update-Unique k f m h.1)
