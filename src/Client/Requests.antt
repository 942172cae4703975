-- ===== src/Client/Requests.antt =====
-- The commands of the client that ask the API (core/client.cxx).
use Prim.Native.String.{◌++◌ as ◌++ˢ◌}
use marinatb.Common.{
  ℕ, suc, String, Option, none, some, List, [], ◌∷◌, undefined, nat_eq, string_eq, ◌==◌,
  if◌then◌else◌,
}
use marinatb.Platform.{JsonLib, JsonText, UuidLib, Inet}
use marinatb.Topo.Testbed.{TestbedTopology}
use marinatb.Json.Object.{Supply, sub, object, extract}
use marinatb.Json.Wholes.{to_blueprint, to_topology, of_topology}
use marinatb.Http.Message.{Message, body_as_json}
use marinatb.Client.Machine.{
  Platform, Ended, returned, waits, Session, Done, Client, pure, exit, throw, lift, ◌>>=◌, print,
  complain, catch_out_of_range,
}

module _ {W A : Type 0} where
  -- What cerr is given, line by line, before exit(1).
  unfoldable pub give_up : List String → Client W A
  give_up [] = exit 1
  give_up (line ∷ lines) = do _ ← complain line; give_up lines

module _ {J W : Type 0} (t : JsonText J) (l : JsonLib J) (m : Platform J W) where
  abbrev pub answered : Session W → Option Message × W → Ended Message × Session W
  answered s (none, w) = (waits, record s { world = w })
  answered s (some r, w) = (returned r, record s { world = w })

  -- HttpRequest rq{HTTPMethod::POST, url, body}; rq.response().get()
  unfoldable pub post : String → String → Client W Message
  post url body s = answered s (m.post url body s.world)

  -- res.msg->getStatusCode(); there is no message where no headers came.
  abbrev pub status_code : Message → Client W ℕ
  status_code res = elim res.msg [ none ↦ throw undefined | some c ↦ pure c ]

  -- The test of the code, with what is written where it is not 200.
  unfoldable pub expect_200 : (ℕ → List String) → Message → Client W Done
  expect_200 lines res = do c ← status_code res; if c == 200 then pure tt else give_up (lines c)

  unfoldable pub request : String → String → (ℕ → List String) → Client W Message
  request url body lines = do res ← post url body; _ ← expect_200 lines res; pure res

  -- A command that looks at nothing but the code.
  unfoldable pub command : String → String → String → Client W Done
  command url body line = do _ ← request url body (λ c. line ∷ []); pure tt

  abbrev pub two_fields : String → String → String → String → String
  two_fields k a i b = m.dump_2 (object l ((k, l.of_string a) ∷ (i, l.of_string b) ∷ []))

  unfoldable pub rm : String → String → Client W Done
  rm bid pid =
      command "https://api/blueprint/delete" (two_fields "project" pid "bpid" bid)
        "failed to remove blueprint"

  unfoldable pub up : String → String → Client W Done
  up pid bid =
      command "https://api/materialization/construct" (two_fields "project" pid "bpid" bid)
        "failed to materialize blueprint"

  unfoldable pub down : String → String → Client W Done
  down pid bid =
      command "https://api/materialization/destruct" (two_fields "project" pid "bpid" bid)
        "failed to de-materialize blueprint"

  abbrev pub with_code : String → ℕ → List String
  with_code line c = line ∷ ("code: " ++ˢ m.decimal c) ∷ []

  -- What is printed where the reply lacks what is asked of it.
  unfoldable pub odd_reply : String → J → Client W Done
  odd_reply line j = do _ ← complain line; _ ← complain "marinatb returned:"; complain (l.dump j)

  module _ (u : UuidLib) (o : Inet) (draw : Supply) where
    -- for(const Json x : js)
    unfoldable pub print_names : ℕ → List J → Client W Done
    print_names n [] = pure tt
    print_names n (x ∷ xs) = do
      b ← lift (to_blueprint l u o (sub draw n) x)
      _ ← print b.name
      print_names (suc n) xs

    -- The body of bps and mzs, which differ in these texts.
    unfoldable pub names_at : String → String → String → J → Client W Done
    names_at url key line msg = do
      res ← request url (m.dump_2 msg) (with_code line)
      j ← lift (body_as_json t res)
      catch_out_of_range (do js ← lift (l.at j key); print_names 0 (l.elements js))
          (odd_reply line j)

    abbrev pub of_project : String → J
    of_project pid = object l (("project", l.of_string pid) ∷ [])

    unfoldable pub bps : String → Client W Done
    bps pid =
        names_at "https://api/blueprint/list" "blueprints" "fetching blueprints failed"
          (of_project pid)

    unfoldable pub mzs : String → Client W Done
    mzs pid =
        names_at "https://api/materialization/list" "materializations"
          "fetching materializations failed" (of_project pid)

    unfoldable pub get_topo : Client W TestbedTopology
    get_topo = do
      res ←
          request "https://api/materialization/status" "{}" (λ c. "failed to get testbed data" ∷ [])
      whole ← lift (body_as_json t res)
      j ← lift (extract l whole "topo")
      lift (to_topology l u o draw j)

    unfoldable pub dump : Client W Done
    dump = do topo ← get_topo; print (m.dump_2 (of_topology l u topo))

  unfoldable pub status : Client W Done
  status = print "the muffin man will own your soul"

  -- console and ssh print their own names.
  unfoldable pub console : String → String → Client W Done
  console mzn node = print "console"

  unfoldable pub ssh : String → String → Client W Done
  ssh mzn node = print "ssh"
