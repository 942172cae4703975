-- ===== src/BlueprintService.antt =====
-- The handlers of the blueprint service (core/blueprint-service.cxx). The state is that of the database.
use marinatb.Common.{
  ℕ, String, Bool, List, [], ◌∷◌, map, Option, none, some, Result, ok, err, Exception, ◌>>=◌,
  out_of_range, runtime_error, invalid_argument, domain_error, delete_active_blueprint, thrown_text,
  undefined,
}
use marinatb.Platform.{JsonLib, JsonText, UuidLib, Inet, PqLib}
use marinatb.Blueprint.Store.{Blueprint}
use marinatb.Json.Object.{Supply, object}
use marinatb.Json.Wholes.{to_blueprint, of_blueprint}
use marinatb.Database.Store.{save_blueprint, fetch_blueprint, fetch_blueprints, delete_blueprint}
use marinatb.Http.{
  Response, Route, Handler, dumped, ok_status, bad_request_status, bad_request, unexpected_failure,
  post_method, json_in,
}
pub mod Laws
mod Examples

-- catch(exception &e): the exceptions that are of no class below std::exception are not caught.
unfoldable pub caught : {J : Type 0} → Exception → Result (Response J)
caught delete_active_blueprint = err delete_active_blueprint
caught thrown_text = err thrown_text
caught undefined = err undefined
caught e = ok unexpected_failure

module _ {A J S : Type 0} where
  -- Where the parameters of a request are read, only out_of_range is caught.
  abbrev pub with_request :
      Result A → (A → S → Result (Response J) × S) → S → Result (Response J) × S
  with_request (ok a) next s = next a s
  with_request (err out_of_range) next s = (ok bad_request, s)
  with_request (err e) next s = (err e, s)

  -- What a call of the database is answered with.
  abbrev pub reply :
      (A → Response J) → (Exception → Result (Response J)) → Result A × S → Result (Response J) × S
  reply good bad (ok a, s) = (ok (good a), s)
  reply good bad (err e, s) = (bad e, s)

abbrev pub good : {J : Type 0} → J → Response J
good j = record { status = ok_status; content = dumped j }

module _ {J : Type 0} (l : JsonLib J) where
  abbrev pub string_at : J → String → Result String
  string_at j key = do x ← l.at j key; l.get_string x

  abbrev pub project_and_name : J → Result (String × String)
  project_and_name j = do
    project ← string_at j "project"
    bpid ← string_at j "bpid"
    ok (project, bpid)

  abbrev pub save_request : J → Result (String × J × String)
  save_request j = do
    project ← string_at j "project"
    source ← l.at j "source"
    bpid ← string_at source "name"
    ok (project, source, bpid)

  -- An object with the project, the blueprint and one field more.
  abbrev pub about : String → String → String → J → J
  about project bpid key v =
      object l (("project", l.of_string project) ∷ ("bpid", l.of_string bpid) ∷ (key, v) ∷ [])

  abbrev pub problem : String → String → String → J
  problem text project bpid = object l (
      ("error", l.of_string text)
      ∷ ("project", l.of_string project)
      ∷ ("bpid", l.of_string bpid)
      ∷ [])

module _ {J S : Type 0} (t : JsonText J) (l : JsonLib J) (u : UuidLib) (o : Inet) (q : PqLib S)
    (draw : Supply) where
  -- save, from the blueprint that is read.
  unfoldable pub save_read : String → String → Result Blueprint → S → Result (Response J) × S
  save_read project bpid (err e) s = (caught e, s)
  save_read project bpid (ok bp) s =
      reply (λ id. good (about l project bpid "action" (l.of_string "saved"))) caught
        (save_blueprint t l u o q project (of_blueprint l u bp) s)

  unfoldable pub save : Handler J S
  save j =
      with_request (save_request l j)
        λ (project, source, bpid). save_read project bpid (to_blueprint l u o draw source)

  -- The catch clauses of get and check.
  unfoldable pub unknown_or_caught : String → String → Exception → Result (Response J)
  unknown_or_caught project bpid out_of_range = ok (record {
    status = bad_request_status;
    content = dumped (problem l "unknown project & bpid combination" project bpid);
  })
  unknown_or_caught project bpid e = caught e

  unfoldable pub get : Handler J S
  get j = with_request (project_and_name l j) λ (project, bpid) s.
      reply (λ bp. good (of_blueprint l u bp)) (unknown_or_caught project bpid)
        (fetch_blueprint t l u o q draw project bpid s)

  unfoldable pub check : Handler J S
  check j = with_request (project_and_name l j) λ (project, bpid) s.
      reply (λ bp. good (about l project bpid "diagnostics" l.null))
        (unknown_or_caught project bpid) (fetch_blueprint t l u o q draw project bpid s)

  -- The catch clauses of del.
  unfoldable pub active_or_caught : String → String → Exception → Result (Response J)
  active_or_caught project bpid delete_active_blueprint =
      ok (good (problem l "active blueprint deletion" project bpid))
  active_or_caught project bpid e = caught e

  unfoldable pub del : Handler J S
  del j = with_request (project_and_name l j) λ (project, bpid) s.
      reply (λ x. good (about l project bpid "action" (l.of_string "deleted")))
        (active_or_caught project bpid) (delete_blueprint t l u o q draw project bpid s)

  unfoldable pub list : Handler J S
  list j = with_request (string_at l j "project") λ project s.
      reply
        (λ bps. good (
          object l (
            ("status", l.of_string "ok")
            ∷ ("blueprints", l.of_array (map (of_blueprint l u) bps))
            ∷ [])))
        caught (fetch_blueprints t l u o q draw project s)

  abbrev pub on_post : String → Handler J S → Route J S
  on_post path f = record { f = json_in f; method = post_method; path = path }

  unfoldable pub routes : List (Route J S)
  routes =
      on_post "/save" save
      ∷ on_post "/get" get
      ∷ on_post "/check" check
      ∷ on_post "/delete" del
      ∷ on_post "/list" list
      ∷ []
