-- ===== src/BlueprintService/Examples.antt =====
-- The blueprint service on the sample blueprint.
use marinatb.Common.{ℕ, zero, suc, ◌≡◌, refl, String, All, [], ◌∷◌, ok, domain_error, string_eq}
use marinatb.Platform.{JsonText, PqLib, tuples_ok}
use marinatb.Json.Object.{object}
use marinatb.Json.Wholes.{of_blueprint}
use marinatb.Http.{on_eom, terminated}
use marinatb.Sample.{little_endian}
use marinatb.Sample.Trees.{Tree, trees, trees-laws, unary, unary-laws}
use marinatb.Sample.Site.{pair_blueprint}
use marinatb.Sample.Draws.{draws, default_space, pair-IsBlueprint, pair_read}
use marinatb.Database.Store.{fetch_materialization, run_query, checked, parse_blueprint}
use marinatb.BlueprintService.{
  save, get, del, routes, project_and_name, save_request, about, problem, good,
}
use marinatb.BlueprintService.Laws.{del-keeps_active, on_eom-terminated, save-get}

abbrev pair_json : Tree
pair_json = of_blueprint trees unary pair_blueprint

-- The text of every document is that of the sample.
abbrev pair_text : JsonText Tree
pair_text = record { parse = λ doc. ok pair_json }

abbrev row : ℕ → String
row zero = "7"
row (suc n) = trees.dump pair_json

-- A database that counts statements. The first returns an id, and the others the sample.
abbrev counting : PqLib ℕ
counting = record {
  exec = λ statement n. (record { status = tuples_ok; rows = row n ∷ [] }, suc n);
}

abbrev named_request : Tree
named_request =
    object trees (("project", trees.of_string "p") ∷ ("bpid", trees.of_string "pair") ∷ [])

abbrev pair_request : Tree
pair_request = object trees (("project", trees.of_string "p") ∷ ("source", pair_json) ∷ [])

-- A project that is a number.
abbrev odd_request : Tree
odd_request = object trees (("project", trees.of_size 1) ∷ [])

named : project_and_name trees named_request ≡ ok ("p", "pair")
unfolding object
named = refl

sourced : save_request trees pair_request ≡ ok ("p", pair_json, "pair")
unfolding object of_blueprint
sourced = refl

active :
    fetch_materialization pair_text trees unary little_endian counting draws "p" "pair" 1
    ≡ (ok pair_blueprint, 2)
unfolding fetch_materialization run_query checked parse_blueprint
active = rw pair_read refl

del-keeps_active_example :
    del pair_text trees unary little_endian counting draws named_request 1
    ≡ (ok (good (problem trees "active blueprint deletion" "p" "pair")), 2)
del-keeps_active_example =
    del-keeps_active pair_text trees unary little_endian counting draws named_request 1 2 "p" "pair"
      pair_blueprint named active

odd-at : trees.at odd_request "project" ≡ ok (trees.of_size 1)
unfolding object
odd-at = refl

on_eom-terminated_example :
    All
      (λ r.
        on_eom
          (routes pair_text trees unary little_endian counting draws)
          r.path
          r.method
          (ok odd_request)
          0
        ≡ (terminated domain_error, 0))
      (routes pair_text trees unary little_endian counting draws)
on_eom-terminated_example =
    on_eom-terminated pair_text trees unary little_endian counting draws odd_request
      (trees.of_size 1) 0 odd-at refl

save-get_example :
    (save pair_text trees unary little_endian counting draws pair_request 0
      ≡ (ok (good (about trees "p" "pair" "action" (trees.of_string "saved"))), 1))
    × (get pair_text trees unary little_endian counting draws named_request 1
        ≡ (ok (good pair_json), 2))
unfolding marinatb.Common.Dict.find marinatb.Common.Dict.erase
save-get_example =
    save-get pair_text trees trees-laws unary unary-laws little_endian counting draws
      (record { addr = 2570; mask = 16 }) pair_blueprint pair_request named_request 0 1 2 "p" "pair"
      "7" (trees.dump pair_json) default_space pair-IsBlueprint refl sourced named refl refl refl
