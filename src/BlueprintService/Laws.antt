-- ===== src/BlueprintService/Laws.antt =====
-- What the handlers of the blueprint service do (core/blueprint-service.cxx).
use marinatb.Common.{
  All, nat_eq, ◌≡◌, refl, sym, ap, ◌∙◌, subst, String, [], ◌∷◌, ok, err, domain_error, find_if,
  string_eq,
}
use marinatb.Platform.{JsonLib, JsonLaws, JsonText, UuidLib, UuidLaws, Inet, PqLib, tuples_ok}
use marinatb.Ip.{of_string, IpV4Address}
use marinatb.Blueprint.Store.{Blueprint}
use marinatb.Json.Object.{Supply}
use marinatb.Json.Wholes.{to_blueprint, of_blueprint}
use marinatb.Json.WholeLaws.{IsBlueprint, stored_blueprint, to_blueprint-of_blueprint}
use marinatb.Database.Statement.{save_blueprint_text, fetch_blueprint_text}
use marinatb.Database.Store.{
  save_blueprint, fetch_blueprint, delete_blueprint, fetch_materialization, run_query, checked,
  parse_blueprint,
}
use marinatb.Http.{terminated, answered, json_in, on_eom, same_method}
use marinatb.BlueprintService.{
  save, save_read, get, check, del, list, routes, project_and_name, save_request, about, problem,
  good, active_or_caught,
}

module _ {J S : Type 0} (t : JsonText J) (l : JsonLib J) (u : UuidLib) (o : Inet) (q : PqLib S)
    (draw : Supply) where
  -- del of a blueprint that has a materialization sends one statement, the one that asks for it, and
  -- answers that the blueprint is active.
  pub del-keeps_active :
      (j : J) (s after : S) (project bpid : String) (mzn : Blueprint)
      → project_and_name l j ≡ ok (project, bpid)
      → fetch_materialization t l u o q draw project bpid s ≡ (ok mzn, after)
      → del t l u o q draw j s
        ≡ (ok (good (problem l "active blueprint deletion" project bpid)), after)
  unfolding del delete_blueprint active_or_caught
  del-keeps_active j s after project bpid mzn e h = rw (e, h) refl

  -- The service ends where a request names a project that is no string: no handler and not jsonIn
  -- catches what the conversion throws, on any of its routes.
  pub on_eom-terminated :
      (j v : J) (s : S)
      → l.at j "project" ≡ ok v
      → l.get_string v ≡ err domain_error
      → All
          (λ r.
            on_eom (routes t l u o q draw) r.path r.method (ok j) s ≡ (terminated domain_error, s))
          (routes t l u o q draw)
  unfolding on_eom routes find_if json_in answered same_method save get check del list
  on_eom-terminated j v s a b =
      (rw (a, b) refl, (rw (a, b) refl, (rw (a, b) refl, (rw (a, b) refl, (rw (a, b) refl, tt)))))

module _ {J S : Type 0} (t : JsonText J) (l : JsonLib J) (laws : JsonLaws l) (u : UuidLib)
    (uuids : UuidLaws u) (o : Inet) (q : PqLib S) (draw : Supply) where
  parse-printed :
      (doc : String) (j : J) (b : Blueprint)
      → t.parse doc ≡ ok j
      → to_blueprint l u o draw j ≡ ok b
      → parse_blueprint t l u o q draw doc ≡ ok b
  unfolding parse_blueprint
  parse-printed doc j b h e = rw (parse_blueprint, h) e

  -- get returns the blueprint that save was given, if its computers have the disk of a new one and list
  -- their control interfaces first, its members hold values of their types, its maps are keyed by id, and
  -- the document that the database returns, whatever its text, parses to the value that save wrote. The
  -- default address space parses.
  pub save-get :
      (space : IpV4Address) (b : Blueprint) (save_j get_j : J) (s between after : S)
      (project name id doc : String)
      → of_string o "10.10.0.0" 16 ≡ ok space
      → IsBlueprint b
      → stored_blueprint b ≡ b
      → save_request l save_j ≡ ok (project, of_blueprint l u b, name)
      → project_and_name l get_j ≡ ok (project, name)
      → q.exec (save_blueprint_text project (l.dump (of_blueprint l u b))) s
        ≡ (record { status = tuples_ok; rows = id ∷ [] }, between)
      → q.exec (fetch_blueprint_text project name) between
        ≡ (record { status = tuples_ok; rows = doc ∷ [] }, after)
      → t.parse doc ≡ ok (of_blueprint l u b)
      → (save t l u o q draw save_j s
          ≡ (ok (good (about l project name "action" (l.of_string "saved"))), between))
        × (get t l u o q draw get_j between ≡ (ok (good (of_blueprint l u b)), after))
  unfolding save save_read get save_blueprint fetch_blueprint run_query checked
  save-get space b save_j get_j s between after project name id doc sp h same a c d e f =
      let read : to_blueprint l u o draw (of_blueprint l u b) ≡ ok b =
        to_blueprint-of_blueprint l laws u uuids o space draw b sp h ∙ ap ok same in
      let stored_b : save_read t l u o q draw project name
            (to_blueprint l u o draw (of_blueprint l u b)) s
          ≡ (ok (good (about l project name "action" (l.of_string "saved"))), between) =
        subst
          (λ r.
            save_read t l u o q draw project name r s
            ≡ (ok (good (about l project name "action" (l.of_string "saved"))), between))
          (sym read) (rw d refl) in
      (rw a stored_b, rw (c, e, parse-printed doc (of_blueprint l u b) b f read) refl)
