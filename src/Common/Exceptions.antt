-- ===== src/Common/Exceptions.antt =====
-- Exceptions as values. The message of an exception is not kept: no handler reads it but to log it.
use mathlib.Core.Path.{◌≡◌, refl}
use mathlib.Core.Logic.{◌⊎◌, inl, inr}
use mathlib.Core.List.{List, [], ◌∷◌}
use mathlib.Core.Option.{Option, none, some}

-- The classes of exceptions that the program throws or lets through. `undefined` is undefined
-- behaviour, and `thrown_text` a text that is thrown, which is of no class.
pub data Exception : Type 0 where
  out_of_range runtime_error invalid_argument domain_error delete_active_blueprint thrown_text
        undefined :
      Exception

pub data Result {ℓ} (A : Type ℓ) : Type ℓ where
  err : Exception → Result A
  ok : A → Result A

infixl 5 ◌>>=◌
abbrev pub ◌>>=◌ {ℓ κ} : {X : Type ℓ} {Y : Type κ} (r : Result X) (next : X → Result Y) → Result Y
err thrown >>= next = err thrown
ok x >>= next = next x

abbrev pub or_throw {ℓ} : {A : Type ℓ} → Option A → Exception → Result A
or_throw none e = err e
or_throw (some a) e = ok a

-- The first exception of a list of computations that run in order.
unfoldable pub sequence {ℓ} : {A : Type ℓ} → List (Result A) → Result (List A)
sequence [] = ok []
sequence (r ∷ rs) = do x ← r; xs ← sequence rs; ok (x ∷ xs)

-- A chain that returns has returned from its first call.
pub >>=-eq-ok {ℓ κ} :
    {X : Type ℓ} {Y : Type κ} (r : Result X) (next : X → Result Y) {y : Y}
    → (r >>= next) ≡ ok y
    → (x : X) × (r ≡ ok x) × (next x ≡ ok y)
>>=-eq-ok (err thrown) next e = cc
>>=-eq-ok (ok x) next e = (x, refl, e)

pub Result-cases {ℓ} :
    {A : Type ℓ} (r : Result A) → ((e : Exception) × (r ≡ err e)) ⊎ ((a : A) × (r ≡ ok a))
Result-cases (ok a) = inr (a, refl)
Result-cases (err e) = inl (e, refl)

pub ok-injective {ℓ} : {A : Type ℓ} {a b : A} → ok a ≡ ok b → a ≡ b
ok-injective e = cc
