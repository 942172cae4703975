-- ===== src/Http/Server.antt =====
-- The server (common/net/http_server.cxx): its handlers and the callbacks of a request to it. The
-- transport, TLS and the logs are left out.
use marinatb.Common.{
  ℕ, String, List, [], ◌∷◌, ◌++◌, Option, none, some, Result, ok, err, undefined, add64,
}
use marinatb.Platform.{JsonText}
use marinatb.Http.{
  Response, Route, Method, get_method, post_method, Outcome, sent, not_found, terminated, on_eom,
}
use marinatb.Http.Message.{on_body, body_as_json}

-- `handlers_` of HttpsServer
pub record HttpsServer (J S : Type 0) : Type 0 where
  pub handlers_ : List (Route J S)

-- RqHandler
pub record RqHandler (J S : Type 0) : Type 0 where
  pub msg_ : Option (String × Method)
  pub body_ : Option (List String)
  pub handlers_ : List (Route J S)

pub data Callback : Type 0 where
  request_begun : String → Method → Callback
  body_chunk : String → Callback
  message_ended upgraded request_complete error_seen : Callback

-- What there is of a request: the handler until it deletes itself, the count of SrvStats, the service,
-- and what was sent.
pub record Exchange (J S : Type 0) : Type 0 where
  pub handler : Option (RqHandler J S)
  pub cnt_ : ℕ
  pub service : S
  pub replies : List (Outcome J)

-- The callbacks that bring a body, cut like this.
unfoldable pub body_chunks : List String → List Callback → List Callback
body_chunks [] rest = rest
body_chunks (b ∷ bs) rest = body_chunk b ∷ body_chunks bs rest

module _ {J S : Type 0} where
  unfoldable pub on_get :
      HttpsServer J S → String → (Result J → S → Result (Response J) × S) → HttpsServer J S
  on_get s url f = record s {
    handlers_ = s.handlers_ ++ record { f = f; method = get_method; path = url } ∷ [];
  }

  unfoldable pub on_post :
      HttpsServer J S → String → (Result J → S → Result (Response J) × S) → HttpsServer J S
  on_post s url f = record s {
    handlers_ = s.handlers_ ++ record { f = f; method = post_method; path = url } ∷ [];
  }

  abbrev pub new_server : HttpsServer J S
  new_server = record { handlers_ = [] }

  abbrev pub by_method :
      Method → HttpsServer J S → String → (Result J → S → Result (Response J) × S) → HttpsServer J S
  by_method get_method = on_get
  by_method post_method = on_post

  -- The calls that a service makes before run, one for each of these.
  unfoldable pub registered : List (Route J S) → HttpsServer J S → HttpsServer J S
  registered [] s = s
  registered (r ∷ rs) s = registered rs (by_method r.method s r.path r.f)

  -- The request that the factory of this server makes a handler for.
  unfoldable pub new_exchange : HttpsServer J S → S → ℕ → Exchange J S
  new_exchange server s n = record {
    handler = some (record { msg_ = none; body_ = none; handlers_ = server.handlers_ });
    cnt_ = n;
    service = s;
    replies = [];
  }

  -- What onEOM leaves: where a handler was found, its message and its body have been moved out.
  unfoldable pub settled : RqHandler J S → Exchange J S → Outcome J × S → Result (Exchange J S)
  settled h x (sent r, s) = ok (record x {
    handler = some (record h { msg_ = none; body_ = none });
    service = s;
    replies = x.replies ++ sent r ∷ [];
  })
  settled h x (not_found, s) = ok (record x { service = s; replies = x.replies ++ not_found ∷ [] })
  settled h x (terminated e, s) = err e

  unfoldable pub ended :
      JsonText J → RqHandler J S → Exchange J S → Option (String × Method) → Result (Exchange J S)
  unfolding settled
  ended t h x none = err undefined
  ended t h x (some (path, m)) = settled h x (
      on_eom h.handlers_ path m (body_as_json t (record { msg = none; content = h.body_ }))
        x.service)

  -- A callback on a handler that is there.
  unfoldable pub handler_called :
      JsonText J → Callback → RqHandler J S → Exchange J S → Result (Exchange J S)
  unfolding ended
  handler_called t (request_begun path m) h x =
      ok (record x { handler = some (record h { msg_ = some (path, m) }); cnt_ = add64 x.cnt_ 1 })
  handler_called t (body_chunk b) h x =
      ok (record x { handler = some (record h { body_ = on_body h.body_ b }) })
  handler_called t message_ended h x = ended t h x h.msg_
  handler_called t upgraded h x = ok x
  handler_called t request_complete h x = ok (record x { handler = none })
  handler_called t error_seen h x = ok (record x { handler = none })

  -- A callback; an error where the program ends, or where the handler has deleted itself.
  unfoldable pub called : JsonText J → Callback → Exchange J S → Result (Exchange J S)
  called t c x = elim x.handler [ none ↦ err undefined | some h ↦ handler_called t c h x ]

  unfoldable pub all_called : JsonText J → List Callback → Exchange J S → Result (Exchange J S)
  all_called t [] x = ok x
  all_called t (c ∷ cs) x = elim (called t c x) [ err e ↦ err e | ok next ↦ all_called t cs next ]
