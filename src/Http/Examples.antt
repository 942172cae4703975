-- ===== src/Http/Examples.antt =====
-- Two requests in two buffers each: one that is answered so, and one that a server gets so.
use marinatb.Common.{◌≡◌, refl, none, some, List, [], ◌∷◌, String, Result, ok, err}
use marinatb.Platform.{JsonText}
use marinatb.Http.{
  Response, Route, Method, get_method, post_method, sent, text, ok_status, matches, same_method,
}
use marinatb.Http.Server.{
  request_begun, body_chunk, message_ended, body_chunks, registered, new_server, new_exchange,
}
use marinatb.Http.Server
use marinatb.Http.Served.{outcome, served-first}
use marinatb.Http.Message.{on_body, joined}
use marinatb.Http.Request
use marinatb.Http.Request.{
  connect_success, on_headers_complete, on_body_chunk, on_eom, called, all_called, until_eom,
  received, new_request, no_message, headers_sent, body_sent, eom_sent, all_called-received,
}

abbrev exchange : List Request.Callback
exchange =
    connect_success ∷ on_headers_complete 200 ∷ on_body_chunk "ab" ∷ on_body_chunk "c" ∷ on_eom ∷ []

exchanged :
    all_called exchange (new_request (some "{}"))
    ≡ some (record {
      response_ = no_message;
      response_promise_ = some (record { msg = some 200; content = some ("ab" ∷ "c" ∷ []) });
      msg_ = none;
      sent = headers_sent ∷ body_sent "{}" ∷ eom_sent ∷ [];
    })
unfolding all_called called on_body
exchanged = refl

all_called-received_example :
    some (record { msg = some 200; content = some ("ab" ∷ "c" ∷ []) })
    ≡ received no_message (until_eom exchange)
all_called-received_example =
    all_called-received exchange (new_request (some "{}")) _ refl exchanged

-- A JSON library whose values are texts.
abbrev as_text : JsonText String
as_text = record { parse = λ body. ok body }

abbrev says : Result String → String → Response String
says (ok body) word = record { status = ok_status; content = text body }
says (err e) word = record { status = ok_status; content = text word }

abbrev route : Method → String → String → Route String String
route m path word = record { f = λ body kept. (ok (says body word), word); method = m; path = path }

-- Two handlers for the path, of which the first answers: the one before them is for another method.
served-first_example :
    outcome (
      Server.all_called as_text
        (request_begun "/save" post_method ∷ body_chunks ("{" ∷ "}" ∷ []) (message_ended ∷ []))
        (new_exchange
          (registered
            (route get_method "/save" "a"
              ∷ route post_method "/save" "b"
              ∷ route post_method "/save" "c"
              ∷ [])
            new_server)
          ""
          0))
    ≡ ok (sent (record { status = ok_status; content = text "{}" }) ∷ [], "b")
unfolding matches same_method joined
served-first_example =
    served-first as_text (route get_method "/save" "a" ∷ []) (route post_method "/save" "c" ∷ [])
      (route post_method "/save" "b") "/save" post_method ("{" ∷ "}" ∷ []) "" 0 (refl, tt) refl
