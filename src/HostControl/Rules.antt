-- ===== src/HostControl/Rules.antt =====
-- What holds of the log when a function of host-control ends, from what holds when it begins.
use marinatb.Common.{
  Option, none, some, ℕ, zero, suc, List, ◌∷◌, Result, ok, err, Exception, runtime_error, ◌≡◌, refl,
  subst, sym, ap,
}
use marinatb.HostControl.Command.{Command, Event, ran}
use marinatb.HostControl.Shell.{
  Machine, Done, pure, replied, Shell, lift, continue, ◌>>=◌, note, Replies, exec_fail, exec,
  attempt, must, must_or, on_failure,
}

abbrev pub Log : Type 1
Log = List Event → Type 0

module _ {A : Type 0} where
  -- After a return the first holds, and after a throw the second.
  abbrev pub Ended : Log → Log → Result A × Machine → Type 0
  Ended Q R (ok a, s) = Q s.log
  Ended Q R (err e, s) = R s.log

  pub record Triple (P : Log) (m : Shell A) (Q R : Log) : Type 0 where
    pub ends : (s : Machine) → P s.log → Ended Q R (m s)

module _ {A B : Type 0} where
  Ended-continue :
      (Q R T : Log) (r : Result A × Machine) (next : A → Shell B)
      → Ended Q T r
      → ((a : A) → Triple Q (next a) R T)
      → Ended R T (continue r next)
  Ended-continue Q R T (ok a, s) next h k = (k a).ends s h
  Ended-continue Q R T (err e, s) next h k = h

  pub chain :
      {P Q R T : Log} (m : Shell A) (next : A → Shell B)
      → Triple P m Q T
      → ((a : A) → Triple Q (next a) R T)
      → Triple P (m >>= next) R T
  chain {Q = Q} {R = R} {T = T} m next h k = record {
    ends = λ s p. Ended-continue Q R T (m s) next (h.ends s p) k;
  }

abbrev pub Never : Log
Never l = ⊥

module _ {A : Type 0} {P : Log} where
  -- A call that leaves the log as it is.
  pub silent :
      {Q : Log} (m : Shell A) → ((s : Machine) → P s.log → Ended P Q (m s)) → Triple P m P Q
  silent m h = record { ends = h }

module _ {A B : Type 0} {P : Log} where
  -- A call that throws ends the rest.
  pub thrown :
      (r : Result A) (e : Exception) (next : A → Shell B)
      → r ≡ err e
      → Triple P (lift r >>= next) Never P
  thrown r e next q =
      subst (λ x. Triple P (lift x >>= next) Never P) (sym q) (record { ends = λ s p. p })

module _ {A B : Type 0} {P Q R : Log} where
  -- A call that returns goes on.
  pub returned :
      (r : Result A) (a : A) (next : A → Shell B)
      → r ≡ ok a
      → Triple P (next a) Q R
      → Triple P (lift r >>= next) Q R
  returned r a next e h =
      subst (λ x. Triple P (lift x >>= next) Q R) (sym e) (record { ends = h.ends })

  -- What follows a call that never returns is not run.
  pub stopped : (m : Shell A) (next : A → Shell B) → Triple P m Never R → Triple P (m >>= next) Q R
  stopped m next h = chain m next h (λ a. record { ends = λ s p. absurd p })

module _ (reply : Replies) {P Q T : Log} where
  pub noted : (e : Event) → ((l : List Event) → P l → Q (e ∷ l)) → Triple P (note e) Q T
  noted e h = record { ends = λ s p. h s.log p }

  pub attempted :
      (c : Command)
      → ((l : List Event) → reply l c ≡ none → P l → T l)
      → ((l : List Event) (n : ℕ) → P l → Q (ran c n ∷ l))
      → Triple P (attempt reply c) Q T
  unfolding exec
  attempted c lost h = record {
    ends = λ s p. settle s (reply s.log c) (λ q. lost s.log q p) (λ n. h s.log n p);
  }
    where
      settle :
          (s : Machine) (r : Option ℕ)
          → (r ≡ none → T s.log)
          → ((n : ℕ) → Q (ran c n ∷ s.log))
          → Ended Q T (continue (replied c r s) (λ _. pure tt))
      settle s none u g = u refl
      settle s (some n) u g = g n

  -- The same, where what the command replies is needed.
  pub attempted_as :
      (c : Command)
      → ((l : List Event) → reply l c ≡ none → P l → T l)
      → ((l : List Event) (n : ℕ) → reply l c ≡ some n → P l → Q (ran c n ∷ l))
      → Triple P (attempt reply c) Q T
  unfolding exec
  attempted_as c lost h = record {
    ends = λ s p. settle s (reply s.log c) (λ q. lost s.log q p) (λ n q. h s.log n q p);
  }
    where
      settle :
          (s : Machine) (r : Option ℕ)
          → (r ≡ none → T s.log)
          → ((n : ℕ) → r ≡ some n → Q (ran c n ∷ s.log))
          → Ended Q T (continue (replied c r s) (λ _. pure tt))
      settle s none u g = u refl
      settle s (some n) u g = g n refl

  -- Where a command fails, the clean-up starts with what its failure leaves.
  pub required_or :
      {F : Log} (c : Command) (cleanup : Shell Done)
      → ((l : List Event) → reply l c ≡ none → P l → T l)
      → ((l : List Event) → P l → Q (ran c 0 ∷ l))
      → ((l : List Event) (n : ℕ) → P l → F (ran c (suc n) ∷ l))
      → Triple F cleanup T T
      → Triple P (must_or reply c cleanup) Q T
  unfolding exec exec_fail
  required_or {F = F} c cleanup lost good bad clean = record {
    ends =
        λ s p. settle s (reply s.log c) (λ q. lost s.log q p) (good s.log p) (λ n. bad s.log n p);
  }
    where
      cleaned :
          (r : Result Done × Machine)
          → Ended T T r
          → Ended Q T (continue r (λ x. exec_fail (suc zero)))
      cleaned (ok a, t) h = h
      cleaned (err e, t) h = h

      settle :
          (s : Machine) (r : Option ℕ)
          → (r ≡ none → T s.log)
          → Q (ran c 0 ∷ s.log)
          → ((i : ℕ) → F (ran c (suc i) ∷ s.log))
          → Ended Q T (continue (replied c r s) (on_failure reply cleanup))
      settle s none u g b = u refl
      settle s (some zero) u g b = g
      settle s (some (suc n)) u g b = cleaned (cleanup _) (clean.ends _ (b n))

  pub required :
      (c : Command)
      → ((l : List Event) → reply l c ≡ none → P l → T l)
      → ((l : List Event) → P l → Q (ran c 0 ∷ l))
      → ((l : List Event) (n : ℕ) → P l → T (ran c (suc n) ∷ l))
      → Triple P (must reply c) Q T
  unfolding exec exec_fail
  required c lost good bad = record {
    ends =
        λ s p. settle s (reply s.log c) (λ q. lost s.log q p) (good s.log p) (λ n. bad s.log n p);
  }
    where
      settle :
          (s : Machine) (r : Option ℕ)
          → (r ≡ none → T s.log)
          → Q (ran c 0 ∷ s.log)
          → ((i : ℕ) → T (ran c (suc i) ∷ s.log))
          → Ended Q T (continue (replied c r s) exec_fail)
      settle s none u g b = u refl
      settle s (some zero) u g b = g
      settle s (some (suc n)) u g b = b n

pub Ended-either : {A : Type 0} (Q : Log) (r : Result A × Machine) → Q r.1.log → Ended Q Q r
Ended-either Q (ok a, s) h = h
Ended-either Q (err e, s) h = h

pub Ended-same : {A : Type 0} (Q : Log) (r : Result A × Machine) → Ended Q Q r → Q r.1.log
Ended-same Q (ok a, s) h = h
Ended-same Q (err e, s) h = h

-- A chain that returns has returned from its first call.
pub continue-ok :
    {A B : Type 0} (r : Result A × Machine) (next : A → Shell B) {b : B} {t : Machine}
    → continue r next ≡ (ok b, t)
    → (a : A) × (s : Machine) × (r ≡ (ok a, s)) × (next a s ≡ (ok b, t))
continue-ok (ok a, s) next h = (a, s, refl, h)
continue-ok {B = B} (err e, s) next {b = b} {t = t} h =
    let bad : err e ≡ ok b = ap (λ (x : Result B × Machine). x.0) h in cc

-- A command that is required and succeeds writes the log alone.
pub must-ok :
    (reply : Replies) (c : Command) (s : Machine) {x : Done} {t : Machine}
    → must reply c s ≡ (ok x, t)
    → record t { log = s.log } ≡ s
unfolding exec exec_fail
must-ok reply c s {x = x} {t = t} h = settle (reply s.log c) h
  where
    settle :
        (r : Option ℕ)
        → continue (replied c r s) exec_fail ≡ (ok x, t)
        → record t { log = s.log } ≡ s
    settle none q =
        let bad : err runtime_error ≡ ok x = ap (λ (y : Result Done × Machine). y.0) q in cc
    settle (some zero) q = ap (λ (y : Result Done × Machine). record y.1 { log = s.log }) (sym q)
    settle (some (suc n)) q =
        let bad : err runtime_error ≡ ok x = ap (λ (y : Result Done × Machine). y.0) q in cc

-- So does a command whose result is not looked at.
pub attempt-ok :
    (reply : Replies) (c : Command) (s : Machine) {x : Done} {t : Machine}
    → attempt reply c s ≡ (ok x, t)
    → record t { log = s.log } ≡ s
unfolding exec
attempt-ok reply c s {x = x} {t = t} h = settle (reply s.log c) h
  where
    settle :
        (r : Option ℕ)
        → continue (replied c r s) (λ _. pure tt) ≡ (ok x, t)
        → record t { log = s.log } ≡ s
    settle none q =
        let bad : err runtime_error ≡ ok x = ap (λ (y : Result Done × Machine). y.0) q in cc
    settle (some n) q = ap (λ (y : Result Done × Machine). record y.1 { log = s.log }) (sym q)
