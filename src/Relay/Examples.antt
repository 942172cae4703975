-- ===== src/Relay/Examples.antt =====
-- A request to the API.
use marinatb.Common.{◌≡◌, refl, some, string_eq, find_if}
use marinatb.Relay.{to, api_relays, access_relays, relayed, through, Straight, through-Straight}

list_removes : through "/accounts/list" ≡ some (to "/accounts/removeUser" "accounts" "/removeUser")
unfolding through relayed api_relays access_relays find_if
list_removes = refl

saves : through "/blueprint/save" ≡ some (to "/blueprint/save" "blueprint" "/save")
unfolding through relayed api_relays access_relays find_if
saves = refl

through-Straight_example : Straight "/blueprint/save" (to "/blueprint/save" "blueprint" "/save")
through-Straight_example =
    through-Straight "/blueprint/save" (to "/blueprint/save" "blueprint" "/save") saves
