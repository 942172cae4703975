-- ===== src/MaterializationService/Serve.antt =====
-- The materialization service as it serves requests (core/materialization-service.cxx).
use marinatb.Common.{
  ◌≡◌, refl, sym, ap, ◌∙◌, ℕ, String, List, [], ◌∷◌, All, map, Result, ok, err, out_of_range,
  runtime_error, invalid_argument, domain_error, delete_active_blueprint, thrown_text, undefined,
  Exception, inl, inr, string_eq, Bool-cases, find_if, ◌==◌, ◌&&◌,
}
use marinatb.Platform.{JsonLib, JsonText, UuidLib, Inet, PqLib, Double, Pipes, Std}
use marinatb.Json.Object.{Supply}
use marinatb.Http.{
  Response, Handler, Route, Method, Outcome, sent, not_found, terminated, answer, answered, json_in,
  replied, on_eom, handled, matches, same_method, post_method,
}
use marinatb.BlueprintService.{with_request, reply, caught, good, project_and_name}
use marinatb.MaterializationService.{destruct, info, list, topo, status}
use marinatb.MaterializationService.Unsent.{destruct-unsent}
use marinatb.MaterializationService.Construct.{
  Service, moved, build_up, construct, apart, routes, posted,
}
use marinatb.MaterializationService.Same.{NoMachines, Same, Same-pure, on_world-Same, after-Same}
use marinatb.MaterializationService.Silent.{quiet, build_up-Same}

module _ {J S : Type 0} where
  abbrev noted : Outcome J → List (Outcome J) × S → List (Outcome J) × S
  noted o (os, s) = (o ∷ os, s)

  -- The service goes on unless it has ended.
  abbrev go_on : Outcome J × S → (S → List (Outcome J) × S) → List (Outcome J) × S
  go_on (terminated e, s) next = (terminated e ∷ [], s)
  go_on (sent r, s) next = noted (sent r) (next s)
  go_on (not_found, s) next = noted not_found (next s)

  -- Requests one after the other, each with its path, its method and what bodyAsJson makes of its body:
  -- what becomes of each, until one ends the service.
  unfoldable pub serve :
      List (Route J S) → List (String × Method × Result J) → S → List (Outcome J) × S
  serve handlers [] s = ([], s)
  serve handlers ((path, m, body) ∷ requests) s =
      go_on (on_eom handlers path m body s) (λ next. serve handlers requests next)

-- The handlers of one path, in two services.
abbrev Pair : Type 0 → Type 0 → Type 0
Pair J S = String × Handler J (Service S) × Handler J (Service S)

module _ {J S A : Type 0} where
  with_request-Same :
      (r : Result A) (f g : A → Service S → Result (Response J) × Service S)
      → ((a : A) → Same (f a) (g a))
      → Same (with_request r f) (with_request r g)
  with_request-Same (ok a) f g h = h a
  with_request-Same (err out_of_range) f g h = Same-pure _
  with_request-Same (err runtime_error) f g h = Same-pure _
  with_request-Same (err invalid_argument) f g h = Same-pure _
  with_request-Same (err domain_error) f g h = Same-pure _
  with_request-Same (err delete_active_blueprint) f g h = Same-pure _
  with_request-Same (err thrown_text) f g h = Same-pure _
  with_request-Same (err undefined) f g h = Same-pure _

  reply-kept :
      (made : A → Response J) (bad : Exception → Result (Response J)) (x : Result A) (s : Service S)
      → (reply made bad (x, s)).1 ≡ s
  reply-kept made bad (ok a) s = refl
  reply-kept made bad (err e) s = refl

module _ {J S : Type 0} where
  answer-kept : (x : Result (Response J)) (s : Service S) → (answer (x, s)).1 ≡ s
  unfolding answer
  answer-kept (ok r) s = refl
  answer-kept (err e) s = refl

  replied-kept : (x : Result (Response J)) (s : Service S) → (replied (x, s)).1 ≡ s
  unfolding replied
  replied-kept (ok r) s = refl
  replied-kept (err e) s = refl

  json_in-Same :
      (f g : Handler J (Service S)) (body : Result J)
      → ((j : J) → Same (f j) (g j))
      → Same (json_in f body) (json_in g body)
  unfolding json_in
  json_in-Same f g (err e) h = Same-pure (answered e)
  json_in-Same f g (ok j) h = after-Same answer answer-kept (f j) (g j) (h j)

  on_eom-Same :
      (rows : List (Pair J S)) (path : String) (m : Method) (body : Result J)
      → All (λ (r : Pair J S). (j : J) → Same (r.1 j) (r.2 j)) rows
      → Same
          (on_eom (map (λ (r : Pair J S). posted r.0 r.1) rows) path m body)
          (on_eom (map (λ (r : Pair J S). posted r.0 r.2) rows) path m body)
  unfolding on_eom handled matches find_if
  on_eom-Same [] path m body h = Same-pure not_found
  on_eom-Same ((name, f, g) ∷ rows) path m body h =
      elim (Bool-cases (name == path && same_method post_method m)) [
        | inl y ↦
            (let here = after-Same replied replied-kept _ _ (json_in-Same f g body h.0) in
              record { same = λ s k. rw y (here.same s k); kept = λ s k. rw y (here.kept s k) })
        | inr n ↦
            (let rest = on_eom-Same rows path m body h.1 in
              record { same = λ s k. rw n (rest.same s k); kept = λ s k. rw n (rest.kept s k) })
      ]

  go_on-Same :
      (x : Outcome J × Service S) (f g : Service S → List (Outcome J) × Service S)
      → NoMachines x.1
      → Same f g
      → go_on x f ≡ go_on x g
  go_on-Same (sent r, s) f g n h = ap (noted (sent r)) (h.same s n)
  go_on-Same (not_found, s) f g n h = ap (noted not_found) (h.same s n)
  go_on-Same (terminated e, s) f g n h = refl

  go_on-kept :
      (x : Outcome J × Service S) (f g : Service S → List (Outcome J) × Service S)
      → NoMachines x.1
      → Same f g
      → NoMachines (go_on x f).1
  go_on-kept (sent r, s) f g n h = h.kept s n
  go_on-kept (not_found, s) f g n h = h.kept s n
  go_on-kept (terminated e, s) f g n h = n

  serve-Same :
      (rows : List (Pair J S)) (requests : List (String × Method × Result J))
      → All (λ (r : Pair J S). (j : J) → Same (r.1 j) (r.2 j)) rows
      → Same
          (serve (map (λ (r : Pair J S). posted r.0 r.1) rows) requests)
          (serve (map (λ (r : Pair J S). posted r.0 r.2) rows) requests)
  unfolding serve
  serve-Same rows [] h = Same-pure []
  serve-Same rows ((path, m, body) ∷ requests) h =
      let here = on_eom-Same rows path m body h in
      let rest = serve-Same rows requests h in
      record {
        same = λ s n.
            go_on-Same _ _ _ (here.kept s n) rest
            ∙ ap (λ x. go_on x (serve (map (λ (r : Pair J S). posted r.0 r.2) rows) requests))
                (here.same s n);
        kept = λ s n. go_on-kept _ _ _ (here.kept s n) rest;
      }

module _ {J F S : Type 0} (t : JsonText J) (l : JsonLib J) (u : UuidLib) (o : Inet) (q : PqLib S)
    (draw : Supply) (d : Double F) (p : Pipes F) (st : Std) (stoul : String → Result ℕ)
    (send : String → J → S → S) where
  construct-Same :
      (j : J)
      → Same
          (construct t l u o q draw d p st stoul send j)
          (construct t l u o q draw d p st stoul quiet j)
  unfolding construct
  construct-Same j = with_request-Same (project_and_name l j) _ _ λ a.
      after-Same (reply (λ id. good (l.set j "action" (l.of_string "constructed"))) caught)
        (reply-kept (λ id. good (l.set j "action" (l.of_string "constructed"))) caught)
        (build_up t l u o q draw d p st stoul send a.0 a.1)
        (build_up t l u o q draw d p st stoul quiet a.0 a.1)
        (build_up-Same t l u o q draw d p st stoul send a.0 a.1)

  destruct-Same :
      (j : J)
      → Same
          (apart t l u o q draw d p st stoul send (destruct t l u o q draw send) j)
          (apart t l u o q draw d p st stoul quiet (destruct t l u o q draw quiet) j)
  destruct-Same j = record {
    same = λ s n. ap (moved s) (
        destruct-unsent t l u o q draw send j s.world
        ∙ sym (destruct-unsent t l u o q draw quiet j s.world));
    kept = λ s n. n;
  }

  -- Whatever a request to a host does, the materialization service replies to its requests in order,
  -- and leaves behind, what it would if no request to a host did anything: it sends none. It is in a
  -- state in which it knows no machine, as when it starts.
  pub serve-unsent :
      (requests : List (String × Method × Result J)) (s : Service S)
      → NoMachines s
      → serve (routes t l u o q draw d p st stoul send) requests s
        ≡ serve (routes t l u o q draw d p st stoul quiet) requests s
  unfolding routes
  serve-unsent requests s n =
      (serve-Same
          ((
            "/construct",
            construct t l u o q draw d p st stoul send,
            construct t l u o q draw d p st stoul quiet,
          )
            ∷ (
              "/destruct",
              apart t l u o q draw d p st stoul send (destruct t l u o q draw send),
              apart t l u o q draw d p st stoul quiet (destruct t l u o q draw quiet),
            )
            ∷ (
              "/info",
              apart t l u o q draw d p st stoul send (info t l u o q draw),
              apart t l u o q draw d p st stoul quiet (info t l u o q draw),
            )
            ∷ (
              "/list",
              apart t l u o q draw d p st stoul send (list t l u o q draw),
              apart t l u o q draw d p st stoul quiet (list t l u o q draw),
            )
            ∷ (
              "/topo",
              apart t l u o q draw d p st stoul send (topo t l u o q draw),
              apart t l u o q draw d p st stoul quiet (topo t l u o q draw),
            )
            ∷ (
              "/status",
              apart t l u o q draw d p st stoul send (status t l u o q draw),
              apart t l u o q draw d p st stoul quiet (status t l u o q draw),
            )
            ∷ [])
          requests
          (
            construct-Same,
            (
              destruct-Same,
              (
                (λ j. on_world-Same _),
                ((λ j. on_world-Same _), ((λ j. on_world-Same _), ((λ j. on_world-Same _), tt))),
              ),
            ),
          )).same
        s n
