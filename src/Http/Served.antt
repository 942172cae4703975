-- ===== src/Http/Served.antt =====
-- Which handler answers a request to a server, and what it is given (common/net/http_server.cxx).
use Prim.Native.String.{◌++◌ as ◌++ˢ◌}
use package.text.Mathlib.TextLemmas.{
  append-nil as append-nilˢ, append_assoc as append_assocˢ, nil-append,
}
use mathlib.Core.List.{append-nil, append_assoc}
use native.Mathlib.Omega.{arith}
use marinatb.Common.{
  ℕ, String, Bool, true, false, ◌≡◌, refl, sym, ap, ◌∙◌, List, [], ◌∷◌, ◌++◌, All, Option, none,
  some, Result, ok, err, find_if, add64,
}
use marinatb.Platform.{JsonText}
use marinatb.Http.{
  Response, Route, Method, get_method, post_method, Outcome, sent, matches, replied, handled,
  on_eom,
}
use marinatb.Http.Message.{joined, on_body, body_as_json, body_as_string}
use marinatb.Http.Server.{
  HttpsServer, RqHandler, Callback, request_begun, message_ended, Exchange, on_get, on_post,
  new_server, by_method, registered, new_exchange, settled, ended, handler_called, called,
  all_called, body_chunks,
}

find_if-first :
    {A : Type 0} (test : A → Bool) (before after : List A) (x : A)
    → All (λ y. test y ≡ false) before
    → test x ≡ true
    → find_if test (before ++ x ∷ after) ≡ some x
unfolding find_if
find_if-first test [] after x n y = ground arith
find_if-first test (b ∷ bs) after x n y = ground (arith, find_if-first test bs after x n.1 y)

joined-snoc : (xs : List String) (b : String) → joined (xs ++ b ∷ []) ≡ joined xs ++ˢ b
unfolding joined
joined-snoc [] b = append-nilˢ b ∙ sym (nil-append b)
joined-snoc (x ∷ xs) b = ap (λ s. x ++ˢ s) (joined-snoc xs b) ∙ sym (append_assocˢ x (joined xs) b)

unfoldable gathered : Option (List String) → List String → Option (List String)
gathered o [] = o
gathered o (b ∷ bs) = gathered (on_body o b) bs

abbrev text_of : Option (List String) → String
text_of o = body_as_string (record { msg = none; content = o })

text_of-on_body : (o : Option (List String)) (b : String) → text_of (on_body o b) ≡ text_of o ++ˢ b
unfolding body_as_string on_body joined
text_of-on_body none b = append-nilˢ b ∙ sym (nil-append b)
text_of-on_body (some xs) b = joined-snoc xs b

text_of-gathered :
    (o : Option (List String)) (bs : List String)
    → text_of (gathered o bs) ≡ text_of o ++ˢ joined bs
unfolding gathered joined
text_of-gathered o [] = sym (append-nilˢ (text_of o))
text_of-gathered o (b ∷ bs) =
    text_of-gathered (on_body o b) bs
    ∙ ap (λ s. s ++ˢ joined bs) (text_of-on_body o b)
    ∙ append_assocˢ (text_of o) b (joined bs)

module _ {J S : Type 0} where
  -- What was sent and what the service became; where the program ends, what ended it.
  abbrev pub outcome : Result (Exchange J S) → Result (List (Outcome J) × S)
  outcome (ok x) = ok (x.replies, x.service)
  outcome (err e) = err e

  abbrev pub sent_alone : Result (Response J) × S → Result (List (Outcome J) × S)
  sent_alone (ok r, s) = ok (sent r ∷ [], s)
  sent_alone (err e, s) = err e

  by_method-handlers :
      (m : Method) (s : HttpsServer J S) (path : String)
      (f : Result J → S → Result (Response J) × S)
      → (by_method m s path f).handlers_
        ≡ s.handlers_ ++ record { f = f; method = m; path = path } ∷ []
  unfolding on_get on_post
  by_method-handlers get_method s path f = refl
  by_method-handlers post_method s path f = refl

  registered-handlers :
      (rs : List (Route J S)) (s : HttpsServer J S)
      → (registered rs s).handlers_ ≡ s.handlers_ ++ rs
  unfolding registered
  registered-handlers [] s = sym (append-nil s.handlers_)
  registered-handlers (r ∷ rs) s =
      registered-handlers rs (by_method r.method s r.path r.f)
      ∙ ap (λ hs. hs ++ rs) (by_method-handlers r.method s r.path r.f)
      ∙ append_assoc s.handlers_ (r ∷ []) rs

  all_called-body_chunks :
      (t : JsonText J) (bs : List String) (rest : List Callback) (h : RqHandler J S)
      (x : Exchange J S)
      → all_called t (body_chunks bs rest) (record x { handler = some h })
        ≡ all_called t rest (record x { handler = some (record h { body_ = gathered h.body_ bs }) })
  unfolding all_called called handler_called body_chunks gathered
  all_called-body_chunks t [] rest h x = refl
  all_called-body_chunks t (b ∷ bs) rest h x =
      all_called-body_chunks t bs rest (record h { body_ = on_body h.body_ b }) x

  settled-outcome :
      (t : JsonText J) (h : RqHandler J S) (x : Exchange J S) (y : Result (Response J) × S)
      → x.replies ≡ []
      → outcome (settled h x (replied y)) ≡ sent_alone y
  unfolding settled replied
  settled-outcome t h x (ok r, s) e = ap (λ os. ok (os ++ sent r ∷ [], s)) e
  settled-outcome t h x (err r, s) e = refl

  all_called-end :
      (t : JsonText J) (x : Result (Exchange J S))
      → outcome (elim x [ err e ↦ err e | ok next ↦ all_called t [] next ]) ≡ outcome x
  unfolding all_called
  all_called-end t (ok x) = refl
  all_called-end t (err e) = refl

  -- A server replies to a request with what the first handler that it was given for the path and the
  -- method returns for the text of the body, however the body is cut, and ends where this throws.
  pub served-first :
      (t : JsonText J) (before after : List (Route J S)) (r : Route J S) (path : String)
      (m : Method) (bs : List String) (s : S) (n : ℕ)
      → All (λ h. matches path m h ≡ false) before
      → matches path m r ≡ true
      → outcome (
          all_called t
            (request_begun path m ∷ body_chunks bs (message_ended ∷ []))
            (new_exchange (registered (before ++ r ∷ after) new_server) s n))
        ≡ sent_alone (r.f (t.parse (joined bs)) s)
  unfolding all_called called handler_called new_exchange ended on_eom handled body_as_json joined
      body_as_string
  served-first t before after r path m bs s n others its =
      let rs = before ++ r ∷ after in
      let server = registered rs (new_server {J = J} {S = S}) in
      let h : RqHandler J S = record {
        msg_ = some (path, m);
        body_ = none;
        handlers_ = server.handlers_;
      } in
      let x : Exchange J S = record {
        handler = some h;
        cnt_ = add64 n 1;
        service = s;
        replies = [];
      } in
      let full : RqHandler J S = record h { body_ = gathered none bs } in
      let arrived : Exchange J S = record x { handler = some full } in
      let body = t.parse (text_of (gathered none bs)) in
      let found =
        ap (λ hs. find_if (matches path m) hs) (registered-handlers rs new_server)
        ∙ find_if-first (matches path m) before after r others its in
      ap outcome (all_called-body_chunks t bs (message_ended ∷ []) h x)
      ∙ all_called-end t (settled full arrived (on_eom server.handlers_ path m body s))
      ∙ ap (λ o. outcome (settled full arrived (handled o body s))) found
      ∙ settled-outcome t full arrived (r.f body s) refl
      ∙ ap (λ text. sent_alone (r.f (t.parse text) s))
          (text_of-gathered none bs ∙ nil-append (joined bs))
