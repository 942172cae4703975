-- ===== src/Blueprint/Removal.antt =====
-- The loop of removeComputer and removeNetwork (core/blueprint.cxx).
use marinatb.Common.{
  ℕ, zero, suc, String, ◌<◌, ◌≡◌, refl, Bool, false, Option, none, some, [], ◌∷◌, arith, ◌==◌,
  nat_eq, ◌≢◌, ne_false, find_if, remove_if, length, Bool-cases, Option-cases, inl, inr, ◌∙◌, sym,
  subst, err, out_of_range,
}
use marinatb.Common.Dict
use marinatb.Common.Dict.{Dict, Unique}
use marinatb.Ident.{Uuid}
use marinatb.Blueprint.Store.{
  Blueprint, named_computer, named_network, get_computer, get_network, erase_found, remove_computer,
  remove_network,
}

module _ {V : Type 0} (test : Uuid × V → Bool) where
  remove_if-none : (m : Dict Uuid V) → find_if test m ≡ none → remove_if test m ≡ m
  unfolding find_if remove_if
  remove_if-none [] h = refl
  remove_if-none (x ∷ m) h = ground (arith, remove_if-none m)

  find_if-remove_if : (m : Dict Uuid V) → find_if test (remove_if test m) ≡ none
  unfolding find_if remove_if
  find_if-remove_if [] = refl
  find_if-remove_if (x ∷ m) = ground (arith, find_if-remove_if m)

  -- Erasing an entry that the test finds changes nothing of what the test keeps.
  remove_if-erase :
      (m : Dict Uuid V) (k : Uuid) (v : V)
      → Unique m
      → find_if test m ≡ some (k, v)
      → (remove_if test (Dict.erase k m) ≡ remove_if test m) × (length (Dict.erase k m) < length m)
  unfolding find_if remove_if Dict.erase
  remove_if-erase [] k v u e = cc
  remove_if-erase ((j, w) ∷ m) k v u e = elim (Bool-cases (test (j, w))) [
    | inl hit ↦
        let same : ◌≡◌ {A = Option (Uuid × V)} (some (j, w)) (some (k, v)) = rw hit at e in
        let key : j ≡ k = cc in
        let gone : Dict.erase k m ≡ m =
          Dict.erase-absent k m (subst (λ x. Dict.find x m ≡ none) key u.0) in
        ground (arith, gone)
    | inr miss ↦
        let found : find_if test m ≡ some (k, v) = rw miss at e in
        let held : Dict.find k m ≢ none = Dict.find-of_find_if test m k v found in
        let other : (j == k) ≡ false =
          ne_false j k (λ q. held (subst (λ x. Dict.find x m ≡ none) q u.0)) in
        let rest = remove_if-erase m k v u.1 found in ground (arith, rest)
  ]

  -- The loop, run for one round more than the map has entries, leaves what the test does not find.
  erase_found-eq-remove_if :
      (fuel : ℕ) (m : Dict Uuid V)
      → Unique m
      → length m < fuel
      → erase_found fuel test m ≡ remove_if test m
  unfolding erase_found
  erase_found-eq-remove_if zero m u h = absurd (omega arith)
  erase_found-eq-remove_if (suc fuel) m u h = elim (Option-cases (find_if test m)) [
    | inl e ↦ rw (e, erase_found) (sym (remove_if-none m e))
    | inr ((k, v), e) ↦
        let step = remove_if-erase m k v u e in
        rw (e, erase_found)
          (erase_found-eq-remove_if fuel (Dict.erase k m) (Dict.erase-Unique k m u) (omega arith)
            ∙ step.0)
  ]

-- removeComputer leaves just the computers with another name, in their order, if no key stands twice
-- in the map; then no computer has the name.
pub remove_computer-keeps_others :
    (bp : Blueprint) (name : String)
    → Unique bp.computers
    → ((remove_computer bp name).computers ≡ remove_if (named_computer name) bp.computers)
      × (get_computer (remove_computer bp name) name ≡ err out_of_range)
unfolding remove_computer get_computer
remove_computer-keeps_others bp name u =
    let left = erase_found-eq-remove_if (named_computer name) _ bp.computers u (omega arith) in
    (left, rw (left, find_if-remove_if (named_computer name) bp.computers))

-- removeNetwork leaves just the networks with another name, in their order, if no key stands twice in
-- the map; then no network has the name.
pub remove_network-keeps_others :
    (bp : Blueprint) (name : String)
    → Unique bp.networks
    → ((remove_network bp name).networks ≡ remove_if (named_network name) bp.networks)
      × (get_network (remove_network bp name) name ≡ err out_of_range)
unfolding remove_network get_network
remove_network-keeps_others bp name u =
    let left = erase_found-eq-remove_if (named_network name) _ bp.networks u (omega arith) in
    (left, rw (left, find_if-remove_if (named_network name) bp.networks))
