-- ===== src/Relay.antt =====
-- The requests that the API and the access service pass on (api/api.cxx, core/access.cxx).
use Prim.Native.String.{◌++◌}
use marinatb.Common.{
  ◌≡◌, refl, String, Bool, true, false, ◌||◌, ◌==◌, string_eq, Option, none, some, List, [], ◌∷◌,
  map, All, Result, find_if, ==_true, if◌then◌else◌, Bool-cases, inl, inr, ◌⊎◌, subst, sym,
}
use marinatb.Http.{Response, Route, post_method}
mod Examples

pub record Relay : Type 0 where
  pub path : String
  pub host : String
  pub target : String

-- srv.onPost(path, relay(host, target))
abbrev pub to : String → String → String → Relay
to path host target = record { path = path; host = host; target = target }

-- main of the API
unfoldable pub api_relays : List Relay
api_relays =
    to "/accounts/addUser" "access" "/accounts/addUser"
    ∷ to "/accounts/userInfo" "access" "/accounts/userInfo"
    ∷ to "/accounts/addGroup" "access" "/accounts/addGroup"
    ∷ to "/accounts/removeUser" "access" "/accounts/removeUser"
    ∷ to "/accounts/removeGroup" "access" "/accounts/removeUser"
    ∷ to "/accounts/list" "access" "/accounts/removeUser"
    ∷ to "/blueprint/save" "access" "/blueprint/save"
    ∷ to "/blueprint/check" "access" "/blueprint/check"
    ∷ to "/blueprint/get" "access" "/blueprint/get"
    ∷ to "/blueprint/delete" "access" "/blueprint/delete"
    ∷ to "/blueprint/list" "access" "/blueprint/list"
    ∷ to "/materialization/construct" "access" "/materialization/construct"
    ∷ to "/materialization/destruct" "access" "/materialization/destruct"
    ∷ to "/materialization/info" "access" "/materialization/info"
    ∷ to "/materialization/list" "access" "/materialization/list"
    ∷ to "/materialization/topo" "access" "/materialization/topo"
    ∷ to "/materialization/status" "access" "/materialization/status"
    ∷ []

-- main of the access service
unfoldable pub access_relays : List Relay
access_relays =
    to "/accounts/addUser" "accounts" "/addUser"
    ∷ to "/accounts/userInfo" "accounts" "/userInfo"
    ∷ to "/accounts/addGroup" "accounts" "/addGroup"
    ∷ to "/accounts/removeUser" "accounts" "/removeUser"
    ∷ to "/accounts/removeGroup" "accounts" "/removeUser"
    ∷ to "/accounts/list" "accounts" "/removeUser"
    ∷ to "/blueprint/save" "blueprint" "/save"
    ∷ to "/blueprint/check" "blueprint" "/check"
    ∷ to "/blueprint/get" "blueprint" "/get"
    ∷ to "/blueprint/delete" "blueprint" "/delete"
    ∷ to "/blueprint/list" "blueprint" "/list"
    ∷ to "/materialization/construct" "materialization" "/construct"
    ∷ to "/materialization/destruct" "materialization" "/destruct"
    ∷ to "/materialization/info" "materialization" "/info"
    ∷ to "/materialization/list" "materialization" "/list"
    ∷ to "/materialization/topo" "materialization" "/topo"
    ∷ to "/materialization/status" "materialization" "/status"
    ∷ []

-- The routes of a service, where `ask` is a request to a host and what it is answered.
unfoldable pub relay_routes :
    {J S : Type 0}
    → (String → String → Result J → S → Result (Response J) × S)
    → List Relay
    → List (Route J S)
relay_routes ask =
    map (λ r. record { f = ask r.host r.target; method = post_method; path = r.path })

abbrev pub serves : String → Relay → Bool
serves path r = r.path == path

unfoldable pub relayed : List Relay → String → Option Relay
relayed relays path = find_if (serves path) relays

-- Where a request to the API comes by way of the access service.
abbrev pub onward : Option Relay → Option Relay
onward none = none
onward (some r) = relayed access_relays r.target

unfoldable pub through : String → Option Relay
through path = onward (relayed api_relays path)

-- The path of the request is that of the service and what it is asked for, or the request is one of two
-- that remove a user.
abbrev pub Straight : String → Relay → Type 0
Straight path r =
    (path ≡ "/" ++ (r.host ++ r.target))
    ⊎ (((path ≡ "/accounts/removeGroup") ⊎ (path ≡ "/accounts/list"))
        × (r.host ≡ "accounts")
        × (r.target ≡ "/removeUser"))

find_if-All :
    {A : Type 0} (P : A → Type 0) (f : A → Bool) (xs : List A) (x : A)
    → All P xs
    → find_if f xs ≡ some x
    → P x × (f x ≡ true)
unfolding find_if
find_if-All P f [] x a h = cc
find_if-All P f (y ∷ xs) x a h = elim (Bool-cases (f y)) [
  | inl e ↦
      (let found : some y ≡ some x = rw e at h in
        let same : y ≡ x = cc in subst (λ z. P z × (f z ≡ true)) same (a.0, e))
  | inr e ↦ (let rest : find_if f xs ≡ some x = rw e at h in find_if-All P f xs x a.1 rest)
]

abbrev EndsStraight : Relay → Type 0
EndsStraight a = (r : Relay) → relayed access_relays a.target ≡ some r → Straight a.path r

known :
    (path : String) (a : Relay) → Straight path a → (r : Relay) → some a ≡ some r → Straight path r
known path a h r e = let same : a ≡ r = cc in subst (Straight path) same h

api-EndsStraight : All EndsStraight api_relays
unfolding api_relays access_relays relayed find_if
api-EndsStraight = (
  known _ _ (inl refl),
  (
    known _ _ (inl refl),
    (
      known _ _ (inl refl),
      (
        known _ _ (inl refl),
        (
          known _ _ (inr (inl refl, refl, refl)),
          (
            known _ _ (inr (inr refl, refl, refl)),
            (
              known _ _ (inl refl),
              (
                known _ _ (inl refl),
                (
                  known _ _ (inl refl),
                  (
                    known _ _ (inl refl),
                    (
                      known _ _ (inl refl),
                      (
                        known _ _ (inl refl),
                        (
                          known _ _ (inl refl),
                          (
                            known _ _ (inl refl),
                            (
                              known _ _ (inl refl),
                              (known _ _ (inl refl), (known _ _ (inl refl), tt)),
                            ),
                          ),
                        ),
                      ),
                    ),
                  ),
                ),
              ),
            ),
          ),
        ),
      ),
    ),
  ),
)

from_first :
    (path : String) (first : Option Relay) (r : Relay)
    → relayed api_relays path ≡ first
    → onward first ≡ some r
    → Straight path r
unfolding relayed
from_first path none r e h = cc
from_first path (some a) r e h =
    let good = find_if-All EndsStraight (serves path) api_relays a api-EndsStraight e in
    subst (λ x. Straight x r) (==_true a.path path good.1) (good.0 r h)

-- A request to the API that reaches a service reaches the one that its path names and asks it for the
-- rest of its path, but for /accounts/removeGroup and /accounts/list, which ask for /removeUser.
pub through-Straight : (path : String) (r : Relay) → through path ≡ some r → Straight path r
unfolding through
through-Straight path r h = from_first path (relayed api_relays path) r refl h
