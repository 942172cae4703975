-- ===== src/Blueprint/Store.antt =====
-- class Blueprint: its components, their creation, removal and lookup.
use marinatb.Common.{
  ℕ, zero, suc, String, Bool, ◌==◌, string_eq, nat_eq, none, some, List, [], ◌∷◌, ◌++◌, Result, ok,
  out_of_range, or_throw, ◌>>=◌, find_if, any, length,
}
use marinatb.Common.Dict
use marinatb.Common.Dict.{Dict}
use marinatb.Platform.{Inet}
use marinatb.Ident.{Uuid}
use marinatb.Blueprint.Interface.{Interface}
use marinatb.Blueprint.Network
use marinatb.Blueprint.Network.{Network}
use marinatb.Blueprint.Computer
use marinatb.Blueprint.Computer.{Computer, has_mac}
use marinatb.Blueprint.Links.{Link, of_computer, of_networks}

pub record Blueprint : Type 0 where
  pub name : String
  pub id : Uuid
  pub computers : Dict Uuid Computer
  pub networks : Dict Uuid Network
  pub links : List Link

-- Blueprint(string), with its new id
unfoldable pub create : String → Uuid → Blueprint
create name id = record { name = name; id = id; computers = []; networks = []; links = [] }

-- name(string)
unfoldable pub set_name : Blueprint → String → Blueprint
set_name bp name = record bp { name = name }

-- network(string): the blueprint with the new network, and the network.
unfoldable pub network : Inet → Blueprint → String → Uuid → Result (Blueprint × Network)
network o bp name fresh = do
  n ← Network.create o name fresh
  ok (record bp { networks = Dict.emplace n.id n bp.networks }, n)

-- computer(string); the id and the address of the control interface are drawn by its constructor.
unfoldable pub computer : Blueprint → String → Uuid → String → Blueprint × Computer
computer bp name fresh mac =
    let c = Computer.create name fresh mac in
    (record bp { computers = Dict.insert_or_assign c.id c bp.computers }, c)

abbrev pub named_computer : String → Uuid × Computer → Bool
named_computer name (_, c) = c.name == name

abbrev pub named_network : String → Uuid × Network → Bool
named_network name (_, n) = n.name == name

unfoldable pub get_computer : Blueprint → String → Result Computer
get_computer bp name =
    or_throw (Dict.second (find_if (named_computer name) bp.computers)) out_of_range

unfoldable pub get_network : Blueprint → String → Result Network
get_network bp name = or_throw (Dict.second (find_if (named_network name) bp.networks)) out_of_range

abbrev pub network_with_id : Uuid → Uuid × Network → Bool
network_with_id id (_, n) = n.id == id

unfoldable pub get_network_by_id : Blueprint → Uuid → Result Network
get_network_by_id bp id =
    or_throw (Dict.second (find_if (network_with_id id) bp.networks)) out_of_range

abbrev pub owns_mac : String → Uuid × Computer → Bool
owns_mac mac (_, c) = any (has_mac mac) c.interfaces

-- getComputerByMac: the first computer in whose inner loop an interface has the address.
unfoldable pub get_computer_by_mac : Blueprint → String → Result Computer
get_computer_by_mac bp mac =
    or_throw (Dict.second (find_if (owns_mac mac) bp.computers)) out_of_range

-- The do-while loop of removeComputer and removeNetwork: erase by key the first entry that is found,
-- until none is. It is run with fuel for one round more than the map has entries.
unfoldable pub erase_found {ℓ} : {V : Type ℓ} → ℕ → (Uuid × V → Bool) → Dict Uuid V → Dict Uuid V
erase_found zero test m = m
erase_found (suc fuel) test m = elim (find_if test m) [
  | none ↦ m
  | some (k, v) ↦ erase_found fuel test (Dict.erase k m)
]

unfoldable pub remove_computer : Blueprint → String → Blueprint
remove_computer bp name = record bp {
  computers = erase_found (suc (length bp.computers)) (named_computer name) bp.computers;
}

unfoldable pub remove_network : Blueprint → String → Blueprint
remove_network bp name = record bp {
  networks = erase_found (suc (length bp.networks)) (named_network name) bp.networks;
}

-- connect(pair<Computer, Interface>, Network)
unfoldable pub connect : Blueprint → Computer × Interface → Network → Blueprint
connect bp c n = record bp { links = bp.links ++ of_computer c n ∷ [] }

-- connect(Network, Network)
unfoldable pub connect_networks : Blueprint → Network → Network → Blueprint
connect_networks bp a b = record bp { links = bp.links ++ of_networks a b ∷ [] }
