-- ===== src/Client/Machine.antt =====
-- What the client (core/client.cxx) runs on, and how a call of it ends.
use marinatb.Common.{
  ℕ, String, Option, List, [], ◌∷◌, ◌++◌, Result, ok, err, Exception, out_of_range,
}
use marinatb.Blueprint.Store.{Blueprint}
use marinatb.Topo.Testbed.{TestbedTopology}
use marinatb.Http.Message.{Message}

-- The process and its surroundings: variables of the environment, commands with their exit code and
-- output, libraries that are loaded by path, files, and a POST to a URL, which is not answered where no
-- message ends. `bp` and `topo` call a function of a library, which may have no such symbol, and then
-- the call is undefined. Also the text that basename, dlerror and the printing of a number return, and
-- that of a JSON value with indentation.
pub record Platform (J W : Type 0) : Type 0 where
  pub getenv : String → Option String
  pub exec : String → W → Result (ℕ × String) × W
  pub basename : String → String
  pub dlopen : String → W → Option ℕ × W
  pub dlerror : W → String
  pub bp : ℕ → W → Result Blueprint × W
  pub topo : ℕ → W → Result TestbedTopology × W
  pub write_file : String → String → W → W
  pub read_file : String → W → Option String
  pub post : String → String → W → Option Message × W
  pub dump_2 : J → String
  pub decimal : ℕ → String

-- A call returns, ends the process with a code, throws, or waits for ever.
pub data Ended (A : Type 0) : Type 0 where
  returned : A → Ended A
  exited : ℕ → Ended A
  threw : Exception → Ended A
  waits : Ended A

-- What was printed to the two streams, and the surroundings.
pub record Session (W : Type 0) : Type 0 where
  pub printed : List String
  pub complained : List String
  pub world : W

abbrev pub Done : Type 0
Done = Unit {0}

abbrev pub Client : Type 0 → Type 0 → Type 0
Client W A = Session W → Ended A × Session W

module _ {W A : Type 0} where
  abbrev pub pure : A → Client W A
  pure a s = (returned a, s)

  abbrev pub exit : ℕ → Client W A
  exit n s = (exited n, s)

  abbrev pub throw : Exception → Client W A
  throw e s = (threw e, s)

  -- A call that may throw and changes nothing.
  abbrev pub lift : Result A → Client W A
  lift (ok a) = pure a
  lift (err e) = throw e

  -- A call that changes the surroundings.
  abbrev pub after_call : Session W → Result A × W → Ended A × Session W
  after_call s (ok a, w) = (returned a, record s { world = w })
  after_call s (err e, w) = (threw e, record s { world = w })

  abbrev pub calls : (W → Result A × W) → Client W A
  calls f s = after_call s (f s.world)

  -- try { ... } catch(out_of_range &) { ... }
  abbrev pub rescued : Ended A × Session W → Client W A → Ended A × Session W
  rescued (threw out_of_range, s) handler = handler s
  rescued other handler = other

  abbrev pub catch_out_of_range : Client W A → Client W A → Client W A
  catch_out_of_range body handler s = rescued (body s) handler

module _ {W A B : Type 0} where
  abbrev pub continue : Ended A × Session W → (A → Client W B) → Ended B × Session W
  continue (returned a, s) next = next a s
  continue (exited n, s) next = (exited n, s)
  continue (threw e, s) next = (threw e, s)
  continue (waits, s) next = (waits, s)

infixl 5 ◌>>=◌ ◌>>◌
abbrev pub ◌>>=◌ : {W A B : Type 0} → Client W A → (A → Client W B) → Client W B
◌>>=◌ m next s = continue (m s) next

abbrev pub ◌>>◌ : {W A B : Type 0} → Client W A → Client W B → Client W B
m >> next = m >>= λ _. next

module _ {W : Type 0} where
  -- cout << line << endl
  abbrev pub print : String → Client W Done
  print line s = (returned tt, record s { printed = s.printed ++ line ∷ [] })

  -- cerr << line << endl
  abbrev pub complain : String → Client W Done
  complain line s = (returned tt, record s { complained = s.complained ++ line ∷ [] })
