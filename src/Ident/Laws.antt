-- ===== src/Ident/Laws.antt =====
-- Comparison of endpoints.
use text.Mathlib.TextEquality.{eq_iff}
use marinatb.Common.{String, ◌≡◌, ◌↔◌, ◌⊎◌, inl, refl, true, none, some, Option, arith}
use marinatb.Ident.{Endpoint, eq, mac_eq}

mac_eq_iff : (x y : Option String) → (mac_eq x y ≡ true) ↔ ((x ≡ none) ⊎ (x ≡ y))
unfolding mac_eq
mac_eq_iff none y = (λ _. inl refl, λ _. refl)
mac_eq_iff (some x) none = (λ h. ground arith, λ h. ground arith)
mac_eq_iff (some x) (some y) = (λ h. ground (arith, eq_iff x y), λ h. ground (arith, eq_iff x y))

-- Endpoint comparison holds exactly if the ids agree and the left side has no address or the same
-- as the right side.
pub eq-iff_agrees :
    (a b : Endpoint) → (eq a b ≡ true) ↔ ((a.id ≡ b.id) × ((a.mac ≡ none) ⊎ (a.mac ≡ b.mac)))
unfolding eq
eq-iff_agrees a b =
    (λ h. ground (arith, mac_eq_iff a.mac b.mac), λ h. ground (arith, mac_eq_iff a.mac b.mac))
