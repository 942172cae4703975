-- ===== src/Client/Examples.antt =====
-- The client with the sample blueprint.
use marinatb.Common.{
  ℕ, suc, ◌≡◌, refl, ap, String, false, Option, none, some, List, [], ◌∷◌, ok, err, Result,
  string_eq, ◌==◌, if◌then◌else◌,
}
use marinatb.Platform.{JsonText, PqLib, tuples_ok}
use marinatb.Blueprint.Store.{Blueprint}
use marinatb.Json.Object.{object, sub}
use marinatb.Json.WholeLaws.{to_blueprint-of_blueprint}
use marinatb.Json.Wholes.{to_blueprint, of_blueprint}
use marinatb.Sample.{little_endian}
use marinatb.Sample.Trees.{Tree, trees, trees-laws, unary, unary-laws}
use marinatb.Sample.Site.{pair_blueprint, small_site}
use marinatb.Sample.Draws.{draws, default_space, pair-IsBlueprint, pair_read}
use marinatb.Database.Store.{
  fetch_materialization, fetch_blueprints, run_query, checked, parse_blueprint, parse_blueprints,
}
use marinatb.BlueprintService
use marinatb.Http.Message.{Message}
use marinatb.Client.Machine.{Platform, returned, exited, Session}
use marinatb.Client.Main.{usage, main}
use marinatb.Client.Usage.{accepted, arity, main-refusal}
use marinatb.Client.Requests.{rm, bps, command}
use marinatb.Client.Compile.{
  bcc, save, compile_src, get_home, variable, expect_compiled, expect_loaded,
}
use marinatb.Client.Saved.{summary, save-bcc}
use marinatb.Client.Remote.{online, listed, rm-keeps_active, bps-names}

abbrev desk : Platform Tree ℕ
desk = record {
  getenv = λ name. some "/home/murphy";
  exec = λ text w. (ok (0, ""), w);
  basename = λ src. src;
  dlopen = λ lib w. (some 1, w);
  dlerror = λ w. "";
  bp = λ dh w. (ok pair_blueprint, w);
  topo = λ dh w. (ok small_site, w);
  write_file = λ path text w. w;
  read_file = λ path w. none;
  post = λ url body w. (none, w);
  dump_2 = λ j. "request";
  decimal = λ n. "0";
}

abbrev start : Session ℕ
start = record { printed = []; complained = []; world = 0 }

abbrev pair_json : Tree
pair_json = of_blueprint trees unary pair_blueprint

-- A document of the database, a request and a reply as texts.
abbrev texts : Tree → Tree → JsonText Tree
texts request reply = record {
  parse = λ doc.
      if doc == "pair" then ok pair_json else if doc == "request" then ok request else ok reply;
}

-- A database that has the sample, and counts statements.
abbrev pairs : PqLib ℕ
pairs = record { exec = λ statement n. (record { status = tuples_ok; rows = "pair" ∷ [] }, suc n) }

abbrev nobody : String → String → String → ℕ → Option Message × ℕ
nobody host path body s = (none, s)

-- What follows the host in the URLs of the examples.
abbrev path_of : String → String
path_of url =
    if url == "https://api/blueprint/delete" then "/blueprint/delete" else "/blueprint/list"

short : accepted ("save" ∷ "pair" ∷ []) ≡ false
unfolding accepted arity
short = refl

main-refusal_example :
    main
      (texts pair_json pair_json)
      trees
      desk
      unary
      little_endian
      draws
      ("save" ∷ "pair" ∷ [])
      start
    ≡ (exited 1, record { printed = []; complained = usage ∷ []; world = 0 })
main-refusal_example =
    main-refusal (texts pair_json pair_json) trees desk unary little_endian draws
      ("save" ∷ "pair" ∷ []) start short

abbrev rm_request : Tree
rm_request = object trees (("project", trees.of_string "p") ∷ ("bpid", trees.of_string "pair") ∷ [])

rm_named : BlueprintService.project_and_name trees rm_request ≡ ok ("p", "pair")
unfolding object
rm_named = refl

active :
    fetch_materialization
      (texts rm_request pair_json)
      trees
      unary
      little_endian
      pairs
      draws
      "p"
      "pair"
      0
    ≡ (ok pair_blueprint, 1)
unfolding fetch_materialization run_query checked parse_blueprint
active = rw pair_read refl

rm-keeps_active_example :
    rm
      (texts rm_request pair_json)
      trees
      (online
        (texts rm_request pair_json)
        trees
        unary
        little_endian
        pairs
        draws
        nobody
        path_of
        desk)
      "pair"
      "p"
      start
    ≡ (returned tt, record { printed = []; complained = []; world = 1 })
rm-keeps_active_example =
    rm-keeps_active (texts rm_request pair_json) trees unary little_endian pairs draws nobody
      path_of desk start 1 "pair" "p" pair_blueprint rm_request refl refl rm_named refl active

abbrev bps_request : Tree
bps_request = object trees (("project", trees.of_string "p") ∷ [])

bps_named : BlueprintService.string_at trees bps_request "project" ≡ ok "p"
unfolding object
bps_named = refl

abbrev bps_reply : Tree
bps_reply = listed trees unary (pair_blueprint ∷ [])

read_again : to_blueprint trees unary little_endian (sub draws 0) pair_json ≡ ok pair_blueprint
unfolding marinatb.Common.Dict.find marinatb.Common.Dict.erase
read_again =
    to_blueprint-of_blueprint trees trees-laws unary unary-laws little_endian
      (record { addr = 2570; mask = 16 }) (sub draws 0) pair_blueprint default_space
      pair-IsBlueprint

-- What is made of the only document.
abbrev only : Result Blueprint → Result (List Blueprint)
only (err e) = err e
only (ok bp) = ok (bp ∷ [])

kept :
    fetch_blueprints (texts bps_request bps_reply) trees unary little_endian pairs draws "p" 0
    ≡ (ok (pair_blueprint ∷ []), 1)
unfolding fetch_blueprints run_query checked parse_blueprint parse_blueprints
kept = ap (λ r. (only r, 1)) read_again

bps-names_example :
    bps
      (texts bps_request bps_reply)
      trees
      (online
        (texts bps_request bps_reply)
        trees
        unary
        little_endian
        pairs
        draws
        nobody
        path_of
        desk)
      unary
      little_endian
      draws
      "p"
      start
    ≡ (returned tt, record { printed = "pair" ∷ []; complained = []; world = 1 })
bps-names_example =
    bps-names (texts bps_request bps_reply) trees trees-laws unary unary-laws little_endian pairs
      draws (record { addr = 2570; mask = 16 }) nobody path_of desk start 1 "p"
      (pair_blueprint ∷ []) bps_request refl refl bps_named refl kept refl default_space
      (pair-IsBlueprint, tt)

-- A disk with one file.
abbrev folder : Platform Tree (Option String)
folder = record {
  getenv = λ name. some "/home/murphy";
  exec = λ text w. (ok (0, ""), w);
  basename = λ src. src;
  dlopen = λ lib w. (some 1, w);
  dlerror = λ w. "";
  bp = λ dh w. (ok pair_blueprint, w);
  topo = λ dh w. (ok small_site, w);
  write_file = λ path text w. some text;
  read_file = λ path w. w;
  post = λ url body w. (none, w);
  dump_2 = λ j. "pair";
  decimal = λ n. "0";
}

abbrev empty_folder : Session (Option String)
empty_folder = record { printed = []; complained = []; world = none }

builds : compile_src folder "pair.cxx" empty_folder ≡ (returned 1, empty_folder)
unfolding compile_src get_home variable expect_compiled expect_loaded
builds = refl

save-bcc_example :
    (stored : Session (Option String)) × (bcc folder trees unary "pair.cxx" empty_folder
      ≡ (returned tt, stored))
    × (stored.printed ≡ summary (texts pair_json pair_json) trees folder unary pair_blueprint)
    × (save (texts pair_json pair_json) trees folder "pair" "p" stored
        ≡ command
            (texts pair_json pair_json)
            trees
            folder
            "https://api/blueprint/save"
            "pair"
            "failed to save blueprint"
            stored)
save-bcc_example =
    save-bcc (texts pair_json pair_json) trees folder unary "pair.cxx" "/home/murphy" "p" 1
      pair_blueprint empty_folder empty_folder none refl builds refl refl refl
