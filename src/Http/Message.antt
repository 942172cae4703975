-- ===== src/Http/Message.antt =====
-- The messages that HTTP carries (common/net/proto.cxx), and the reply that a handler returns as one.
use Prim.Native.String.{◌++◌ as ◌++ˢ◌}
use package.text.Mathlib.TextLemmas.{append-nil}
use marinatb.Common.{ℕ, String, Option, none, some, List, [], ◌∷◌, ◌++◌, Result, ◌≡◌}
use marinatb.Platform.{JsonLib, JsonText}
use marinatb.Http.{
  Status, ok_status, bad_request_status, internal_server_error, Content, nothing, text, dumped,
  Response,
}

-- http::Message: the status code, where headers came, and the chain of buffers of the body.
pub record Message : Type 0 where
  pub msg : Option ℕ
  pub content : Option (List String)

-- The bytes of a chain, one buffer after the other.
unfoldable pub joined : List String → String
joined [] = ""
joined (buffer ∷ rest) = buffer ++ˢ joined rest

unfoldable pub body_as_string : Message → String
body_as_string m = elim m.content [ none ↦ "" | some chain ↦ joined chain ]

-- onBody of a handler and of a request: prependChain on the head of the chain puts a buffer at its end.
unfoldable pub on_body : Option (List String) → String → Option (List String)
on_body none chain = some (chain ∷ [])
on_body (some body) chain = some (body ++ chain ∷ [])

unfoldable pub code : Status → ℕ
code ok_status = 200
code bad_request_status = 400
code internal_server_error = 500

unfoldable pub body_as_json : {J : Type 0} → JsonText J → Message → Result J
body_as_json t m = t.parse (body_as_string m)

module _ {J : Type 0} (l : JsonLib J) where
  unfoldable pub content_text : Content J → String
  content_text nothing = ""
  content_text (text x) = x
  content_text (dumped j) = l.dump j

  -- A reply as the one who asked receives it.
  unfoldable pub message : Response J → Message
  message r = record { msg = some (code r.status); content = some (content_text r.content ∷ []) }

  -- What is received of a reply reads as its text.
  pub body_as_string-message :
      (r : Response J) → body_as_string (message r) ≡ content_text r.content
  unfolding body_as_string message joined
  body_as_string-message r = append-nil (content_text r.content)
