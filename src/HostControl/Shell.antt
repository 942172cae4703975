-- ===== src/HostControl/Shell.antt =====
-- The state of host-control, and the functions that read and write it and run commands
-- (core/host-control.cxx). What was done before an exception stays done.
use marinatb.Common.{
  Option, none, some, ℕ, zero, suc, String, List, ◌∷◌, Result, ok, err, runtime_error, Exception,
}
use marinatb.Common.Dict.{Dict}
use marinatb.Ident.{Uuid}
use marinatb.Blueprint.Store.{Blueprint}
use marinatb.Materialize.Ids.{Guarded}
use marinatb.HostControl.Command.{Command, Event, ran}

-- The variables of the service, and what it did, the last first.
pub record Machine : Type 0 where
  pub bridge_id : Guarded Uuid
  pub qk_id : Guarded String
  pub vhost_id : Guarded String
  pub live_blueprints : Dict Uuid Blueprint
  pub log : List Event

-- What a function of type void returns.
abbrev pub Done : Type 0
Done = Unit {0}

abbrev pub Shell : Type 0 → Type 0
Shell A = Machine → Result A × Machine

module _ {A : Type 0} where
  abbrev pub pure : A → Shell A
  pure a s = (ok a, s)

  abbrev pub throw : Exception → Shell A
  throw e s = (err e, s)

  -- A call that may throw and changes nothing.
  abbrev pub lift : Result A → Shell A
  lift r s = (r, s)

module _ {A B : Type 0} where
  abbrev pub continue : Result A × Machine → (A → Shell B) → Result B × Machine
  continue (ok a, s) next = next a s
  continue (err e, s) next = (err e, s)

infixl 5 ◌>>=◌ ◌>>◌
abbrev pub ◌>>=◌ : {A B : Type 0} → Shell A → (A → Shell B) → Shell B
◌>>=◌ m next s = continue (m s) next

abbrev pub ◌>>◌ : {A B : Type 0} → Shell A → Shell B → Shell B
m >> next = m >>= λ _. next

abbrev pub note : Event → Shell Done
note e s = (ok tt, record s { log = e ∷ s.log })

-- The exit code of a command, or none where popen fails. It can depend on all that was done before.
abbrev pub Replies : Type 0
Replies = List Event → Command → Option ℕ

abbrev pub replied : Command → Option ℕ → Shell ℕ
replied c none s = (err runtime_error, s)
replied c (some n) s = (ok n, record s { log = ran c n ∷ s.log })

-- if(cr.code != 0) execFail(cr, ...)
unfoldable pub exec_fail : ℕ → Shell Done
exec_fail zero = pure tt
exec_fail (suc n) = throw runtime_error

module _ (reply : Replies) where
  unfoldable pub exec : Command → Shell ℕ
  exec c s = replied c (reply s.log c) s

  -- exec, with the result not looked at
  abbrev pub attempt : Command → Shell Done
  attempt c = do _ ← exec c; pure tt

  -- exec, and execFail where the code is not 0
  abbrev pub must : Command → Shell Done
  must c = do n ← exec c; exec_fail n

  -- the same, with something to do before execFail
  abbrev pub on_failure : Shell Done → ℕ → Shell Done
  on_failure cleanup zero = pure tt
  on_failure cleanup (suc n) = do _ ← cleanup; exec_fail (suc n)

  abbrev pub must_or : Command → Shell Done → Shell Done
  must_or c cleanup = do n ← exec c; on_failure cleanup n
