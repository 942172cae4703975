-- ===== src/MaterializationService/Examples.antt =====
-- The materialization service on a database that counts statements.
use marinatb.Common.{
  refl, arith, if◌then◌else◌, ◌==◌, string_eq, ℕ, ◌+◌, zero, suc, ◌≡◌, String, [], ◌∷◌, ok, List,
  Result,
}
use marinatb.Platform.{JsonText, PqLib, PgResult, tuples_ok, command_ok}
use marinatb.Json.Object.{object}
use marinatb.Json.Wholes.{of_blueprint, of_topology}
use marinatb.Sample.{little_endian, thousandths, plain_pipes, plain_std}
use marinatb.Sample.Trees.{Tree, trees, trees-laws, unary}
use marinatb.Sample.Site.{pair_blueprint, small_site}
use marinatb.Sample.Draws.{draws}
use marinatb.Http.{Method, post_method}
use marinatb.MaterializationService.Construct.{Service, routes}
use marinatb.MaterializationService.Silent.{quiet}
use marinatb.MaterializationService.Serve.{serve, serve-unsent}
use marinatb.Common.Dict
use marinatb.Common.Dict.{Unique}
use marinatb.Materialize.Construct.{ComputerMzInfo, up}
use marinatb.MaterializationService.Info.{of_info, to_info, to_info-of_info}

-- The two documents that it holds.
abbrev texts : JsonText Tree
texts = record {
  parse = λ doc.
      if doc == "pair"
      then ok (of_blueprint trees unary pair_blueprint)
      else ok (of_topology trees unary small_site);
}

-- The results of the five statements of destruct.
abbrev result : ℕ → PgResult
result zero = record { status = tuples_ok; rows = "pair" ∷ [] }
result (suc zero) = record { status = tuples_ok; rows = "site" ∷ [] }
result (suc (suc zero)) = record { status = command_ok; rows = [] }
result (suc (suc (suc zero))) = record { status = command_ok; rows = [] }
result n = record { status = tuples_ok; rows = "7" ∷ [] }

abbrev counting : PqLib ℕ
counting = record { exec = λ statement n. (result n, suc n) }

abbrev request : Tree
request = object trees (("project", trees.of_string "p") ∷ ("bpid", trees.of_string "pair") ∷ [])

-- A request to a host would count for a hundred.
abbrev loud : String → Tree → ℕ → ℕ
loud host message n = n + 100

-- A computer that is up, with an address on one interface.
abbrev known : ComputerMzInfo
known = record { launch_state = up; interfaces = ("eth0", record { addr = 2570; mask = 16 }) ∷ [] }

known-Unique : Unique known.interfaces
unfolding Dict.find
known-Unique = (refl, tt)

to_info-of_info_example : to_info trees (of_info trees known) ≡ ok known
to_info-of_info_example =
    to_info-of_info trees trees-laws known ((omega arith, omega arith), tt) known-Unique

abbrev idle : Service ℕ
idle = record { mzm = []; world = 0 }

-- A blueprint is materialized and taken down.
abbrev requests : List (String × Method × Result Tree)
requests = ("/construct", post_method, ok request) ∷ ("/destruct", post_method, ok request) ∷ []

abbrev no_number : String → Result ℕ
no_number digits = ok 7

serve-unsent_example :
    serve
      (routes texts trees unary little_endian counting draws thousandths plain_pipes plain_std
        no_number loud)
      requests
      idle
    ≡ serve
        (routes texts trees unary little_endian counting draws thousandths plain_pipes plain_std
          no_number quiet)
        requests
        idle
serve-unsent_example =
    serve-unsent texts trees unary little_endian counting draws thousandths plain_pipes plain_std
      no_number loud requests idle tt
