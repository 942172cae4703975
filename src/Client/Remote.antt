-- ===== src/Client/Remote.antt =====
-- The client, the API, the access service and the blueprint service together (core/client.cxx,
-- api/api.cxx, core/access.cxx, core/blueprint-service.cxx).
use marinatb.Common.{
  ℕ, suc, String, ◌≡◌, refl, ap, ◌∙◌, Option, none, some, List, [], ◌∷◌, ◌++◌, map, All, ok,
  find_if, string_eq, nat_eq, ◌==◌, if◌then◌else◌,
}
use mathlib.Core.List.{append_assoc, append-nil}
use marinatb.Platform.{JsonLib, JsonLaws, JsonText, UuidLib, UuidLaws, Inet, PqLib}
use marinatb.Ip.{of_string, IpV4Address}
use marinatb.Blueprint.Store.{Blueprint}
use marinatb.Json.Object.{Supply, sub, object, at-object}
use marinatb.Json.Wholes.{of_blueprint}
use marinatb.Json.WholeLaws.{IsBlueprint, to_blueprint-of_blueprint}
use marinatb.Database.Store.{fetch_materialization, fetch_blueprints}
use marinatb.Http.{Outcome, sent, not_found, terminated, on_eom, post_method, same_method, json_in}
use marinatb.Http.Message.{
  Message, message, body_as_json, body_as_string-message, code, content_text,
}
use marinatb.BlueprintService
use marinatb.BlueprintService.{routes, project_and_name, string_at, good}
use marinatb.BlueprintService.Laws.{del-keeps_active}
use marinatb.Relay.{Relay, through, relayed, api_relays, access_relays}
use marinatb.Client.Machine.{Platform, returned, Session}
use marinatb.Client.Requests.{rm, bps, command, request, post, expect_200, names_at, print_names}

-- What the list handler of the blueprint service replies.
abbrev pub listed : {J : Type 0} → JsonLib J → UuidLib → List Blueprint → J
listed l u bs =
    object l
      (("status", l.of_string "ok") ∷ ("blueprints", l.of_array (map (of_blueprint l u) bs)) ∷ [])

module _ {J S : Type 0} (t : JsonText J) (l : JsonLib J) (u : UuidLib) (o : Inet) (q : PqLib S)
    (draw : Supply) where
  -- What the one who asked receives: nothing from a service that ended.
  abbrev pub delivered : Outcome J × S → Option Message × S
  delivered (sent r, s) = (some (message l r), s)
  delivered (not_found, s) = (some (record { msg = some 404; content = none }), s)
  delivered (terminated e, s) = (none, s)

  -- A service other than that of the blueprints, with its host.
  abbrev pub Others : Type 0
  Others = String → String → String → S → Option Message × S

  -- A request to a service, by its host and path.
  unfoldable pub at_host : Others → String → String → String → S → Option Message × S
  at_host others host path body s =
      if host == "blueprint"
      then delivered (on_eom (routes t l u o q draw) path post_method (t.parse body) s)
      else others host path body s

  abbrev pub forwarded : Others → String → Option Relay → S → Option Message × S
  forwarded others body none s = (some (record { msg = some 404; content = none }), s)
  forwarded others body (some r) s = at_host others r.host r.target body s

  -- A POST of the client: the path is what follows the name of the API.
  unfoldable pub ask : Others → (String → String) → String → String → S → Option Message × S
  ask others path url body s = forwarded others body (through (path url)) s

  -- The client, where its requests go to the testbed.
  abbrev pub online : Others → (String → String) → Platform J S → Platform J S
  online others path m = record m { post = ask others path }

  module _ (others : Others) (path : String → String) (m : Platform J S) where
    -- rm of a blueprint that has a materialization ends like one that removes it, and prints nothing:
    -- the database answered one query, the one that asks for the materialization. The service reads the
    -- request that the client writes.
    pub rm-keeps_active :
        (s : Session S) (after : S) (bid pid : String) (mzn : Blueprint) (msg : J)
        → path "https://api/blueprint/delete" ≡ "/blueprint/delete"
        → object l (("project", l.of_string pid) ∷ ("bpid", l.of_string bid) ∷ []) ≡ msg
        → project_and_name l msg ≡ ok (pid, bid)
        → t.parse (m.dump_2 msg) ≡ ok msg
        → fetch_materialization t l u o q draw pid bid s.world ≡ (ok mzn, after)
        → rm t l (online others path m) bid pid s ≡ (returned tt, record s { world = after })
    unfolding rm command request post expect_200 ask at_host through relayed api_relays
        access_relays on_eom routes find_if same_method json_in message code
    rm-keeps_active s after bid pid mzn msg b w c d e =
        rw (w, b, d, del-keeps_active t l u o q draw msg s.world after pid bid mzn c e) refl

module _ {J S : Type 0} (t : JsonText J) (l : JsonLib J) (laws : JsonLaws l) (u : UuidLib)
    (uuids : UuidLaws u) (o : Inet) (q : PqLib S) (draw : Supply) (space : IpV4Address) where
  print_names-map :
      (bs : List Blueprint) (n : ℕ) (m : Platform J S) (s : Session S)
      → of_string o "10.10.0.0" 16 ≡ ok space
      → All IsBlueprint bs
      → print_names t l m u o draw n (map (of_blueprint l u) bs) s
        ≡ (returned tt, record s { printed = s.printed ++ map (λ b. b.name) bs })
  unfolding print_names
  print_names-map [] n m s e a = rw (append-nil s.printed) refl
  print_names-map (b ∷ bs) n m s e a =
      rw (to_blueprint-of_blueprint l laws u uuids o space (sub draw n) b e a.0) (
        print_names-map bs (suc n) m (record s { printed = s.printed ++ b.name ∷ [] }) e a.1
        ∙ rw (append_assoc s.printed (b.name ∷ []) (map (λ (x : Blueprint). x.name) bs)) refl)

  list-good :
      (msg : J) (pid : String) (bs : List Blueprint) (s after : S)
      → string_at l msg "project" ≡ ok pid
      → fetch_blueprints t l u o q draw pid s ≡ (ok bs, after)
      → BlueprintService.list t l u o q draw msg s ≡ (ok (good (listed l u bs)), after)
  unfolding BlueprintService.list
  list-good msg pid bs s after a b = rw (a, b) refl

  listed-parts :
      (bs : List Blueprint)
      → (l.at (listed l u bs) "blueprints" ≡ ok (l.of_array (map (of_blueprint l u) bs)))
        × (l.elements (l.of_array (map (of_blueprint l u) bs)) ≡ map (of_blueprint l u) bs)
  listed-parts bs = (at-object l laws _ "blueprints" _ refl, laws.elements-of_array _)

  received_list :
      (bs : List Blueprint)
      → t.parse (l.dump (listed l u bs)) ≡ ok (listed l u bs)
      → body_as_json t (message l (good (listed l u bs))) ≡ ok (listed l u bs)
  unfolding body_as_json content_text
  received_list bs f = ap t.parse (body_as_string-message l (good (listed l u bs))) ∙ f

  -- bps prints the names of the blueprints that the database has for the project, in its order, and
  -- ends normally. What the service and the client write is read back, the members of the blueprints
  -- hold values of their types and their maps are keyed by id. The default address space parses.
  pub bps-names :
      (others : Others t l u o q draw) (path : String → String) (m : Platform J S) (s : Session S)
      (after : S) (pid : String) (bs : List Blueprint) (msg : J)
      → path "https://api/blueprint/list" ≡ "/blueprint/list"
      → object l (("project", l.of_string pid) ∷ []) ≡ msg
      → string_at l msg "project" ≡ ok pid
      → t.parse (m.dump_2 msg) ≡ ok msg
      → fetch_blueprints t l u o q draw pid s.world ≡ (ok bs, after)
      → t.parse (l.dump (listed l u bs)) ≡ ok (listed l u bs)
      → of_string o "10.10.0.0" 16 ≡ ok space
      → All IsBlueprint bs
      → bps t l (online t l u o q draw others path m) u o draw pid s
        ≡ (returned tt, record s { printed = s.printed ++ map (λ b. b.name) bs; world = after })
  unfolding bps names_at request post expect_200 ask at_host through relayed api_relays
      access_relays on_eom routes find_if same_method json_in message code
  bps-names others path m s after pid bs msg b w c d e f sp a =
      rw
        (
          w,
          b,
          d,
          list-good msg pid bs s.world after c e,
          received_list bs f,
          (listed-parts bs).0,
          (listed-parts bs).1,
          print_names-map bs 0 (online t l u o q draw others path m) (record s { world = after }) sp
              a,
        )
        refl
