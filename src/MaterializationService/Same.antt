-- ===== src/MaterializationService/Same.antt =====
-- Two runs of the materialization service that nothing tells apart while it knows no machine.
use marinatb.Common.{◌≡◌, refl, sym, ap, ◌∙◌, subst, [], All, Result, ok, err}
use marinatb.Common.Dict.{Dict}
use marinatb.Ident.{Uuid}
use marinatb.Materialize.Construct.{Materialization}
use marinatb.Database.Store.{Query, continue, ◌>>=◌}
use marinatb.MaterializationService.Construct.{Service, on_world}

abbrev pub Unmanned : Dict Uuid Materialization → Type 0
Unmanned = All λ e. e.1.machines ≡ []

-- No machine of a materialization is known.
abbrev pub NoMachines : {S : Type 0} → Service S → Type 0
NoMachines s = Unmanned s.mzm

-- The same result and state from every state in which no machine is known, and none is known after.
pub record Same {S X : Type 0} (f g : Service S → X × Service S) : Type 0 where
  pub same : (s : Service S) → NoMachines s → f s ≡ g s
  pub kept : (s : Service S) → NoMachines s → NoMachines (f s).1

module _ {S X : Type 0} where
  pub Same-pure : (x : X) → Same {S = S} (λ s. (x, s)) (λ s. (x, s))
  Same-pure x = record { same = λ s n. refl; kept = λ s n. n }

module _ {S A : Type 0} where
  pub on_world-Same : (f : Query S A) → Same {X = Result A} (on_world f) (on_world f)
  on_world-Same f = record { same = λ s n. refl; kept = λ s n. n }

module _ {S A B : Type 0} (f g : A → Query (Service S) B) (h : (a : A) → Same (f a) (g a)) where
  continue-same : (r : Result A × Service S) → NoMachines r.1 → continue r f ≡ continue r g
  continue-same (ok a, s) n = (h a).same s n
  continue-same (err e, s) n = refl

  continue-kept : (r : Result A × Service S) → NoMachines r.1 → NoMachines (continue r f).1
  continue-kept (ok a, s) n = (h a).kept s n
  continue-kept (err e, s) n = n

  pub >>=-Same : (m k : Query (Service S) A) → Same m k → Same (m >>= f) (k >>= g)
  >>=-Same m k a = record {
    same = λ s n. continue-same (m s) (a.kept s n) ∙ ap (λ r. continue r g) (a.same s n);
    kept = λ s n. continue-kept (m s) (a.kept s n);
  }

module _ {S X Y : Type 0} (h : X × Service S → Y × Service S)
    (k : (x : X) (s : Service S) → (h (x, s)).1 ≡ s) where
  -- What is made of a result afterwards.
  pub after-Same : (f g : Service S → X × Service S) → Same f g → Same (λ s. h (f s)) (λ s. h (g s))
  after-Same f g a = record {
    same = λ s n. ap h (a.same s n);
    kept = λ s n. subst NoMachines (sym (k (f s).0 (f s).1)) (a.kept s n);
  }
