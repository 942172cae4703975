-- ===== src/Common/Equality.antt =====
-- One equality test for every type of key.
use Prim.Native.Nat.{ℕ}
use Prim.Native.String.{String}
use mathlib.Core.Path.{◌≡◌, refl}
use mathlib.Core.Logic.{◌↔◌, ◌≢◌, inl, inr}
use mathlib.Core.Bool.{Bool, true, false}
use text.Mathlib.Text.{◌==◌ as str_eq}
use text.Mathlib.TextEquality.{eq_iff}
use marinatb.Common.Tests.{nat_beq, nat_beq_iff, Bool-cases}

infix 50 ◌==◌
-- `operator ==` of a type of keys.
pub record Eq {ℓ} (Key : Type ℓ) : Type ℓ where
  pub beq : (x y : Key) → Bool
  pub beq_iff : (x y : Key) → (beq x y ≡ true) ↔ (x ≡ y)

instance abbrev pub string_eq : Eq String
string_eq = record { beq_iff = eq_iff; beq = str_eq }

instance abbrev pub nat_eq : Eq ℕ
nat_eq = record { beq_iff = nat_beq_iff; beq = nat_beq }

abbrev pub ◌==◌ {ℓ} : {Key : Type ℓ} ⦃keys : Eq Key⦄ → (x y : Key) → Bool
◌==◌ ⦃keys⦄ = keys.beq

module _ {ℓ} {A : Type ℓ} ⦃e : Eq A⦄ where
  pub ==_refl : (a : A) → (a == a) ≡ true
  ==_refl a = (e.beq_iff a a).1 refl

  pub ==_true : (a b : A) → (a == b) ≡ true → a ≡ b
  ==_true a b h = (e.beq_iff a b).0 h

  pub ==_false : (a b : A) → (a == b) ≡ false → a ≢ b
  ==_false a b h p = cc ((e.beq_iff a b).1 p)

  pub ne_false : (a b : A) → a ≢ b → (a == b) ≡ false
  ne_false a b h = elim (Bool-cases (a == b)) [
    | inl y ↦ absurd (h ((e.beq_iff a b).0 y))
    | inr n ↦ n
  ]
