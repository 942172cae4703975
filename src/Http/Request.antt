-- ===== src/Http/Request.antt =====
-- The callbacks of HttpRequest (common/net/http_request.cxx), which fill in the response that a caller
-- waits for. The connection, TLS and the logs are left out.
use marinatb.Common.{
  ℕ, String, Option, none, some, List, [], ◌∷◌, ◌++◌, ◌≡◌, refl, Option-cases, ap, sym, ◌∙◌, inl,
  inr, subst,
}
use mathlib.Core.Option.{some-injective}
use marinatb.Http.Message.{Message, on_body}

-- What the transaction of a request is told to send.
pub data Sent : Type 0 where
  headers_sent : Sent
  body_sent : String → Sent
  eom_sent : Sent

-- `response_`, what `response_promise_` was given, `msg_`, and what was sent.
pub record HttpRequest : Type 0 where
  pub response_ : Message
  pub response_promise_ : Option Message
  pub msg_ : Option String
  pub sent : List Sent

pub data Callback : Type 0 where
  connect_success connect_error : Callback
  on_headers_complete : ℕ → Callback
  on_body_chunk : String → Callback
  on_trailers on_eom on_upgrade on_error on_egress_paused on_egress_resumed : Callback

abbrev pub no_message : Message
no_message = record { msg = none; content = none }

abbrev pub new_request : Option String → HttpRequest
new_request body = record {
  response_ = no_message;
  response_promise_ = none;
  msg_ = body;
  sent = [];
}

-- if(msg_.get() != nullptr) txn_->sendBody(move(msg_))
abbrev send_body : Option String → List Sent
send_body none = []
send_body (some body) = body_sent body ∷ []

-- set_value throws where the promise has a value, and nothing may leave onEOM: the program ends.
abbrev set_value : HttpRequest → Option Message → Option HttpRequest
set_value r none = some (record r { response_ = no_message; response_promise_ = some r.response_ })
set_value r (some old) = none

-- A callback; no result where the program ends.
unfoldable pub called : Callback → HttpRequest → Option HttpRequest
called connect_success r = some (record r {
  sent = r.sent ++ (headers_sent ∷ send_body r.msg_ ++ (eom_sent ∷ []));
  msg_ = none;
})
called (on_headers_complete c) r =
    some (record r { response_ = record { msg = some c; content = r.response_.content } })
called (on_body_chunk chunk) r = some (record r {
  response_ = record { msg = r.response_.msg; content = on_body r.response_.content chunk };
})
called on_eom r = set_value r r.response_promise_
called connect_error r = some r
called on_trailers r = some r
called on_upgrade r = some r
called on_error r = some r
called on_egress_paused r = some r
called on_egress_resumed r = some r

-- The callbacks of one request, in order.
unfoldable pub all_called : List Callback → HttpRequest → Option HttpRequest
all_called [] r = some r
all_called (c ∷ cs) r = elim (called c r) [ none ↦ none | some next ↦ all_called cs next ]

abbrev also : Callback → Option (List Callback) → Option (List Callback)
also c none = none
also c (some before) = some (c ∷ before)

-- The callbacks before the first end of message, if there is one.
unfoldable pub until_eom : List Callback → Option (List Callback)
until_eom [] = none
until_eom (on_eom ∷ cs) = some []
until_eom (c ∷ cs) = also c (until_eom cs)

-- The status code of the last headers, and the buffers of the body.
unfoldable pub last_code : Option ℕ → List Callback → Option ℕ
last_code c [] = c
last_code c (on_headers_complete d ∷ cs) = last_code (some d) cs
last_code c (_ ∷ cs) = last_code c cs

unfoldable pub chunks : Option (List String) → List Callback → Option (List String)
chunks body [] = body
chunks body (on_body_chunk x ∷ cs) = chunks (on_body body x) cs
chunks body (_ ∷ cs) = chunks body cs

-- What a caller that waits receives, from the callbacks alone.
unfoldable pub received : Message → Option (List Callback) → Option Message
received m none = none
received m (some before) =
    some (record { msg = last_code m.msg before; content = chunks m.content before })

-- What a callback other than on_eom makes of the response.
abbrev filled : Callback → Message → Message
filled (on_headers_complete c) m = record { msg = some c; content = m.content }
filled (on_body_chunk x) m = record { msg = m.msg; content = on_body m.content x }
filled _ m = m

abbrev IsEom : Callback → Type 0
IsEom on_eom = Unit {0}
IsEom _ = ⊥

received-also :
    (c : Callback) (m : Message) (o : Option (List Callback))
    → ¬ IsEom c
    → received (filled c m) o ≡ received m (also c o)
unfolding received last_code chunks
received-also c m none n = refl
received-also connect_success m (some b) n = refl
received-also connect_error m (some b) n = refl
received-also (on_headers_complete x) m (some b) n = refl
received-also (on_body_chunk x) m (some b) n = refl
received-also on_trailers m (some b) n = refl
received-also on_eom m (some b) n = elim (n tt) [ ]
received-also on_upgrade m (some b) n = refl
received-also on_error m (some b) n = refl
received-also on_egress_paused m (some b) n = refl
received-also on_egress_resumed m (some b) n = refl

-- A call that returns leaves the value that the promise has.
returned :
    {x next : HttpRequest} {m : Message}
    → some x ≡ some next
    → x.response_promise_ ≡ some m
    → next.response_promise_ ≡ some m
returned {m} h e =
    subst (λ (y : HttpRequest). y.response_promise_ ≡ some m) (some-injective _ _ h) e

called-kept :
    (c : Callback) (r next : HttpRequest) (m : Message)
    → r.response_promise_ ≡ some m
    → called c r ≡ some next
    → next.response_promise_ ≡ some m
unfolding called
called-kept connect_success r next m e h = returned h e
called-kept connect_error r next m e h = returned h e
called-kept (on_headers_complete x) r next m e h = returned h e
called-kept (on_body_chunk x) r next m e h = returned h e
called-kept on_trailers r next m e h = returned h e
called-kept on_upgrade r next m e h = returned h e
called-kept on_error r next m e h = returned h e
called-kept on_egress_paused r next m e h = returned h e
called-kept on_egress_resumed r next m e h = returned h e
called-kept on_eom r next m e h = let bad : none ≡ some next = rw e at h in cc

all_called-kept :
    (cs : List Callback) (r after : HttpRequest) (m : Message)
    → r.response_promise_ ≡ some m
    → all_called cs r ≡ some after
    → after.response_promise_ ≡ some m
unfolding all_called
all_called-kept [] r after m e h = returned h e
all_called-kept (c ∷ cs) r after m e h = elim (Option-cases (called c r)) [
  | inl n ↦ (let bad : none ≡ some after = rw (all_called, n) at h in cc)
  | inr (next, y) ↦
      (let rest : all_called cs next ≡ some after = rw (all_called, y) at h in
        all_called-kept cs next after m (called-kept c r next m e y) rest)
]

-- What waits for a request is given what arrived before the first end of message: the code of the last
-- headers and the buffers in order. Where no message ends it is given nothing, after errors too. The
-- request is one whose promise has no value yet, and no callback ended the program.
pub all_called-received :
    (cs : List Callback) (r after : HttpRequest)
    → r.response_promise_ ≡ none
    → all_called cs r ≡ some after
    → after.response_promise_ ≡ received r.response_ (until_eom cs)
unfolding all_called called until_eom received last_code chunks
all_called-received [] r after e h =
    ap (λ (x : HttpRequest). x.response_promise_) (sym (some-injective _ _ h)) ∙ e
all_called-received (connect_success ∷ cs) r after e h =
    all_called-received cs _ after e h
    ∙ received-also connect_success r.response_ (until_eom cs) (λ x. x)
all_called-received (connect_error ∷ cs) r after e h =
    all_called-received cs _ after e h
    ∙ received-also connect_error r.response_ (until_eom cs) (λ x. x)
all_called-received ((on_headers_complete x) ∷ cs) r after e h =
    all_called-received cs _ after e h
    ∙ received-also (on_headers_complete x) r.response_ (until_eom cs) (λ x. x)
all_called-received ((on_body_chunk x) ∷ cs) r after e h =
    all_called-received cs _ after e h
    ∙ received-also (on_body_chunk x) r.response_ (until_eom cs) (λ x. x)
all_called-received (on_trailers ∷ cs) r after e h =
    all_called-received cs _ after e h
    ∙ received-also on_trailers r.response_ (until_eom cs) (λ x. x)
all_called-received (on_upgrade ∷ cs) r after e h =
    all_called-received cs _ after e h
    ∙ received-also on_upgrade r.response_ (until_eom cs) (λ x. x)
all_called-received (on_error ∷ cs) r after e h =
    all_called-received cs _ after e h ∙ received-also on_error r.response_ (until_eom cs) (λ x. x)
all_called-received (on_egress_paused ∷ cs) r after e h =
    all_called-received cs _ after e h
    ∙ received-also on_egress_paused r.response_ (until_eom cs) (λ x. x)
all_called-received (on_egress_resumed ∷ cs) r after e h =
    all_called-received cs _ after e h
    ∙ received-also on_egress_resumed r.response_ (until_eom cs) (λ x. x)
all_called-received (on_eom ∷ cs) r after e h =
    let rest : all_called cs
          (record r { response_ = no_message; response_promise_ = some r.response_ })
        ≡ some after =
      rw e at h in
    all_called-kept cs _ after r.response_ refl rest
