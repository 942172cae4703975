-- ===== src/Common/Sequence.antt =====
-- What the results of a list of computations have in common.
use mathlib.Core.Path.{◌≡◌, subst}
use mathlib.Core.List.{List, [], ◌∷◌, map}
use marinatb.Common.Lists.{All}
use marinatb.Common.Exceptions.{Result, ok, ◌>>=◌, sequence, >>=-eq-ok, ok-injective}

module _ {ℓ κ μ} {A : Type ℓ} {B : Type κ} (P : B → Type μ) (f : A → Result B) where
  pub sequence-All :
      (xs : List A) (ys : List B)
      → All (λ a. (b : B) → f a ≡ ok b → P b) xs
      → sequence (map f xs) ≡ ok ys
      → All P ys
  sequence-All [] ys h e =
      let same : [] ≡ ys = unfold sequence in ok-injective e in subst (All P) same tt
  sequence-All (x ∷ xs) ys h e =
      subst (All P) (ok-injective rest.2) (h.0 first.0 first.1, sequence-All xs rest.0 h.1 rest.1)
    where
      first : (y : B) × (f x ≡ ok y) × ((do zs ← sequence (map f xs); ok (y ∷ zs)) ≡ ok ys)
      first = >>=-eq-ok _ _ (unfold sequence in e)

      rest : (zs : List B) × (sequence (map f xs) ≡ ok zs) × (ok (first.0 ∷ zs) ≡ ok ys)
      rest = >>=-eq-ok _ _ first.2
