-- ===== src/Http.antt =====
-- Replies, and which handler of a service a request reaches (common/net, core/util.cxx).
use marinatb.Common.{
  String, Bool, true, false, ◌&&◌, ◌==◌, string_eq, Option, none, some, List, Result, ok, err,
  invalid_argument, find_if, Exception,
}
pub mod Message
pub mod Request
pub mod Server
pub mod Served
mod Examples

pub data Status : Type 0 where
  ok_status bad_request_status internal_server_error : Status

-- What a reply holds: nothing, a text, or the text of a JSON value.
pub data Content (J : Type 0) : Type 0 where
  nothing : Content J
  text : String → Content J
  dumped : J → Content J

pub record Response (J : Type 0) : Type 0 where
  pub status : Status
  pub content : Content J

pub data Method : Type 0 where
  get_method post_method : Method

-- A handler of a service with this state; it keeps what it did where it throws.
abbrev pub Handler : Type 0 → Type 0 → Type 0
Handler J S = J → S → Result (Response J) × S

-- A handler with its method and its path. The body of a request is what bodyAsJson returns.
pub record Route (J S : Type 0) : Type 0 where
  pub f : Result J → S → Result (Response J) × S
  pub method : Method
  pub path : String

module _ {J : Type 0} where
  unfoldable pub bad_request : Response J
  bad_request = record { status = bad_request_status; content = nothing }

  unfoldable pub unexpected_failure : Response J
  unexpected_failure = record { status = internal_server_error; content = nothing }

  -- Of the exceptions of a handler, jsonIn answers those of this class only.
  unfoldable pub answered : Exception → Result (Response J)
  answered invalid_argument =
      ok (record { status = bad_request_status; content = text "invalid json" })
  answered e = err e

  unfoldable pub answer : {S : Type 0} → Result (Response J) × S → Result (Response J) × S
  answer (ok r, s) = (ok r, s)
  answer (err e, s) = (answered e, s)

  -- jsonIn, from what bodyAsJson returns
  unfoldable pub json_in : {S : Type 0} → Handler J S → Result J → S → Result (Response J) × S
  unfolding answer
  json_in f (err e) s = (answered e, s)
  json_in f (ok j) s = answer (f j s)

unfoldable pub same_method : Method → Method → Bool
same_method get_method get_method = true
same_method post_method post_method = true
same_method a b = false

-- What becomes of a request. An exception that leaves onEOM, which is noexcept, ends the service.
pub data Outcome (J : Type 0) : Type 0 where
  sent : Response J → Outcome J
  not_found : Outcome J
  terminated : Exception → Outcome J

module _ {J S : Type 0} where
  unfoldable pub matches : String → Method → Route J S → Bool
  matches path m h = h.path == path && same_method h.method m

  unfoldable pub replied : Result (Response J) × S → Outcome J × S
  replied (ok r, s) = (sent r, s)
  replied (err e, s) = (terminated e, s)

  unfoldable pub handled : Option (Route J S) → Result J → S → Outcome J × S
  unfolding replied
  handled none body s = (not_found, s)
  handled (some h) body s = replied (h.f body s)

  -- RqHandler::onEOM
  unfoldable pub on_eom : List (Route J S) → String → Method → Result J → S → Outcome J × S
  unfolding matches handled
  on_eom handlers path m body s = handled (find_if (matches path m) handlers) body s
