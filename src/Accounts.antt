-- ===== src/Accounts.antt =====
-- The accounts service (core/accounts.cxx): every request is answered alike.
use marinatb.Common.{String, List, [], ◌∷◌, ok}
use marinatb.Http.{Route, text, ok_status, post_method}

abbrev pub not_implemented : String
not_implemented = "{\"error\": \"not implemented\"}"

module _ {J S : Type 0} where
  -- srv.onPost(path, [](http::Message){ ... })
  unfoldable pub answers : String → Route J S
  answers path = record {
    f = λ body s. (ok (record { status = ok_status; content = text not_implemented }), s);
    method = post_method;
    path = path;
  }

  unfoldable pub routes : List (Route J S)
  routes =
      answers "/addUser"
      ∷ answers "/userInfo"
      ∷ answers "/addGroup"
      ∷ answers "/removeUser"
      ∷ answers "/removeGroup"
      ∷ answers "/list"
      ∷ []
