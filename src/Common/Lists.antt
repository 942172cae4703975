-- ===== src/Common/Lists.antt =====
-- Lists measured by native numbers, predicates by recursion, and the searches of <algorithm>.
use Prim.Native.Nat.{ℕ, suc, ◌+◌}
use mathlib.Core.Path.{sym, subst, ◌≡◌, refl}
use mathlib.Core.Bool.{Bool, true, false}
use mathlib.Core.List.{List, [], ◌∷◌, ◌++◌, Permᴰ}
use mathlib.Core.Logic.{◌⊎◌, inl, inr}
use mathlib.Core.Option.{Option, none, some}
use native.Mathlib.Omega.{arith}
use marinatb.Common.Tests.{Bool-cases, if◌then◌else◌, add64}

module _ {ℓ} {A : Type ℓ} where
  abbrev pub length : List A → ℕ
  length [] = 0
  length (x ∷ xs) = suc (length xs)

  pub length-append : (xs ys : List A) → length (xs ++ ys) ≡ length xs + length ys
  length-append [] ys = omega arith
  length-append (x ∷ xs) ys = omega (arith, length-append xs ys)

  abbrev pub is_empty : List A → Bool
  is_empty [] = true
  is_empty (x ∷ xs) = false

  abbrev pub All {κ} : (A → Type κ) → List A → Type κ
  All P [] = Unit
  All P (x ∷ xs) = P x × All P xs

  pub All-append {κ} :
      (P : A → Type κ) (front rest : List A) (f : All P front) → All P rest → All P (front ++ rest)
  All-append P [] rest f r = r
  All-append P (a ∷ front) rest (this, f) r = (this, All-append P front rest f r)

  pub All-map {κ μ} :
      {P : A → Type κ} {Q : A → Type μ}
      → ((a : A) → P a → Q a)
      → (xs : List A) → All P xs
      → All Q xs
  All-map f [] h = tt
  All-map f (x ∷ xs) h = (f x h.0, All-map f xs h.1)

  pub All-intro {κ} : {P : A → Type κ} → ((a : A) → P a) → (xs : List A) → All P xs
  All-intro f [] = tt
  All-intro f (x ∷ xs) = (f x, All-intro f xs)

  pub All-suffix {κ} : (P : A → Type κ) (xs ys : List A) → All P (xs ++ ys) → All P ys
  All-suffix P [] ys h = h
  All-suffix P (x ∷ xs) ys h = All-suffix P xs ys h.1

  pub All-perm {κ} : (P : A → Type κ) {xs ys : List A} → Permᴰ xs ys → All P xs → All P ys
  All-perm P Permᴰ.nil h = tt
  All-perm P (Permᴰ.cons e p) h = (subst P e h.0, All-perm P p h.1)
  All-perm P (Permᴰ.swap e f) h = (subst P f h.1.0, (subst P e h.0, h.1.1))
  All-perm P (Permᴰ.trans p q) h = All-perm P q (All-perm P p h)

  -- std::find_if: the first element that passes.
  unfoldable pub find_if : (A → Bool) → List A → Option A
  find_if test [] = none
  find_if test (x ∷ xs) = if test x then some x else find_if test xs

  -- erase(remove_if(…)): drops every element that passes.
  unfoldable pub remove_if : (A → Bool) → List A → List A
  remove_if test [] = []
  remove_if test (x ∷ xs) = if test x then remove_if test xs else x ∷ remove_if test xs

  pub All-remove_if :
      (test : A → Bool) (xs : List A) → All (λ x. test x ≡ false) (remove_if test xs)
  All-remove_if test [] = unfold remove_if in tt
  All-remove_if test (x ∷ xs) = elim (Bool-cases (test x)) [
    | inl hit ↦ subst (All _) (sym (dropped hit)) (All-remove_if test xs)
    | inr miss ↦ subst (All _) (sym (kept miss)) (miss, All-remove_if test xs)
  ]
    where
      dropped : test x ≡ true → remove_if test (x ∷ xs) ≡ remove_if test xs
      dropped h = unfold remove_if in rw h

      kept : test x ≡ false → remove_if test (x ∷ xs) ≡ x ∷ remove_if test xs
      kept h = unfold remove_if in rw h

  unfoldable pub any : (A → Bool) → List A → Bool
  any test [] = false
  any test (x ∷ xs) = if test x then true else any test xs

  unfoldable pub all : (A → Bool) → List A → Bool
  all test [] = true
  all test (x ∷ xs) = if test x then all test xs else false

-- A list's sum in `size_t`.
unfoldable pub sum64 : List ℕ → ℕ
sum64 [] = 0
sum64 (x ∷ xs) = add64 x (sum64 xs)

pub List-cases {ℓ} :
    {A : Type ℓ} (xs : List A) → (xs ≡ []) ⊎ ((x : A) × (ys : List A) × (xs ≡ x ∷ ys))
List-cases [] = inl refl
List-cases (x ∷ xs) = inr (x, xs, refl)
