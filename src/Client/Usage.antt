-- ===== src/Client/Usage.antt =====
-- Command lines that the client refuses (core/client.cxx).
use marinatb.Common.{
  ℕ, String, Bool, true, false, ◌≡◌, refl, List, [], ◌∷◌, ◌++◌, string_eq, nat_eq, ◌==◌,
  if◌then◌else◌, Bool-cases, inl, inr, length, All, map, Option, none, some,
}
use marinatb.Common.Dict.{Dict}
use marinatb.Platform.{JsonLib, JsonText, UuidLib, Inet}
use marinatb.Json.Object.{Supply}
use marinatb.Client.Machine.{Platform, Ended, exited, Session, Done, Client}
use marinatb.Client.Requests.{give_up, bps, mzs, rm, up, down, console, ssh, status, dump}
use marinatb.Client.Compile.{bcc, tcc, save, topo}
use marinatb.Client.Main.{usage, fail, one, two, dispatch, main}

-- The commands and how many arguments each takes; none where any number is taken.
abbrev pub commands : Dict String (Option ℕ)
commands =
    ("bps", some 1)
    ∷ ("mzs", some 1)
    ∷ ("bcc", some 1)
    ∷ ("save", some 2)
    ∷ ("rm", some 2)
    ∷ ("up", some 2)
    ∷ ("down", some 2)
    ∷ ("tcc", some 1)
    ∷ ("topo", some 1)
    ∷ ("console", some 2)
    ∷ ("ssh", some 2)
    ∷ ("status", none)
    ∷ ("dump", none)
    ∷ []

abbrev takes : Option (Option ℕ) → ℕ → Bool
takes none n = false
takes (some none) n = true
takes (some (some k)) n = k == n

unfoldable pub arity : String → Dict String (Option ℕ) → Option (Option ℕ)
arity cmd [] = none
arity cmd ((name, n) ∷ rest) = if cmd == name then some n else arity cmd rest

-- The command line names a command and has as many arguments as it takes.
unfoldable pub accepted : List String → Bool
accepted [] = false
accepted (cmd ∷ args) = takes (arity cmd commands) (length args)

-- The usage is printed to the second stream, and the code is 1.
abbrev pub refusal : {W : Type 0} → Session W → Ended Done × Session W
refusal s = (exited 1, record s { complained = s.complained ++ usage ∷ [] })

module _ {W : Type 0} where
  fail-refusal : (s : Session W) → fail s ≡ refusal s
  unfolding fail give_up
  fail-refusal s = refl

  one-refusal :
      (f : String → Client W Done) (args : List String) (s : Session W)
      → (1 == length args) ≡ false
      → one f args s ≡ refusal s
  unfolding one
  one-refusal f [] s h = fail-refusal s
  one-refusal f (a ∷ []) s h = cc
  one-refusal f (a ∷ b ∷ rest) s h = fail-refusal s

  two-refusal :
      (f : String → String → Client W Done) (args : List String) (s : Session W)
      → (2 == length args) ≡ false
      → two f args s ≡ refusal s
  unfolding two
  two-refusal f [] s h = fail-refusal s
  two-refusal f (a ∷ []) s h = fail-refusal s
  two-refusal f (a ∷ b ∷ []) s h = cc
  two-refusal f (a ∷ b ∷ c ∷ rest) s h = fail-refusal s

  -- The chain of tests, with the number of arguments of each command.
  act : String → List (String × Option ℕ × Client W Done) → Client W Done
  act cmd [] = fail
  act cmd ((name, n, x) ∷ rest) = if cmd == name then x else act cmd rest

  RefusesOthers : ℕ → Session W → String × Option ℕ × Client W Done → Type 0
  RefusesOthers n s (name, k, x) = takes (some k) n ≡ false → x s ≡ refusal s

  act-refusal :
      (cmd : String) (rows : List (String × Option ℕ × Client W Done)) (n : ℕ) (s : Session W)
      → All (RefusesOthers n s) rows
      → takes (arity cmd (map (λ r. (r.0, r.1)) rows)) n ≡ false
      → act cmd rows s ≡ refusal s
  unfolding act arity RefusesOthers
  act-refusal cmd [] n s a h = fail-refusal s
  act-refusal cmd ((name, k, x) ∷ rows) n s a h = elim (Bool-cases (cmd == name)) [
    | inl e ↦ rw e (a.0 (rw e at h))
    | inr e ↦ rw e (act-refusal cmd rows n s a.1 (rw e at h))
  ]

  any_number : (x : Client W Done) (s : Session W) → true ≡ false → x s ≡ refusal s
  any_number x s h = cc

module _ {J W : Type 0} (t : JsonText J) (l : JsonLib J) (m : Platform J W) (u : UuidLib) (o : Inet)
    (draw : Supply) where
  rows : List String → List (String × Option ℕ × Client W Done)
  rows args =
      ("bps", some 1, one (bps t l m u o draw) args)
      ∷ ("mzs", some 1, one (mzs t l m u o draw) args)
      ∷ ("bcc", some 1, one (bcc m l u) args)
      ∷ ("save", some 2, two (save t l m) args)
      ∷ ("rm", some 2, two (rm t l m) args)
      ∷ ("up", some 2, two (up t l m) args)
      ∷ ("down", some 2, two (down t l m) args)
      ∷ ("tcc", some 1, one (tcc m l u) args)
      ∷ ("topo", some 1, one (topo t l m) args)
      ∷ ("console", some 2, two (console t l m) args)
      ∷ ("ssh", some 2, two (ssh t l m) args)
      ∷ ("status", none, status t l m)
      ∷ ("dump", none, dump t l m u o draw)
      ∷ []

  rows-RefusesOthers :
      (args : List String) (s : Session W) → All (RefusesOthers (length args) s) (rows args)
  unfolding rows RefusesOthers
  rows-RefusesOthers args s = (
    one-refusal _ args s,
    (
      one-refusal _ args s,
      (
        one-refusal _ args s,
        (
          two-refusal _ args s,
          (
            two-refusal _ args s,
            (
              two-refusal _ args s,
              (
                two-refusal _ args s,
                (
                  one-refusal _ args s,
                  (
                    one-refusal _ args s,
                    (
                      two-refusal _ args s,
                      (
                        two-refusal _ args s,
                        (any_number (status t l m) s, (any_number (dump t l m u o draw) s, tt)),
                      ),
                    ),
                  ),
                ),
              ),
            ),
          ),
        ),
      ),
    ),
  )

  -- A command line that is not accepted is answered with the usage on the second stream and the exit
  -- code 1, and nothing else is done.
  pub main-refusal :
      (args : List String) (s : Session W)
      → accepted args ≡ false
      → main t l m u o draw args s ≡ refusal s
  unfolding main accepted dispatch act rows
  main-refusal [] s h = fail-refusal s
  main-refusal (cmd ∷ args) s h =
      act-refusal cmd (rows args) (length args) s (rows-RefusesOthers args s) h
