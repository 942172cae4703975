-- ===== src/Json/Parts.antt =====
-- Interfaces, networks, computers and links as JSON (core/blueprint.cxx).
use marinatb.Common.{ℕ, suc, List, [], ◌∷◌, map, Result, ok, err, undefined, ◌>>=◌, string_eq, Eq}
use marinatb.Common.Dict
use marinatb.Common.Dict.{Dict}
use marinatb.Platform.{JsonLib, UuidLib, Inet}
use marinatb.Blueprint.Interface
use marinatb.Blueprint.Interface.{Interface}
use marinatb.Blueprint.Network
use marinatb.Blueprint.Network.{Network}
use marinatb.Blueprint.Computer
use marinatb.Blueprint.Computer.{Computer}
use marinatb.Blueprint.Links.{Link}
use marinatb.Json.Object.{object, extract, extract_string, extract_size, Supply, sub}
use marinatb.Json.Values.{
  of_memory, to_memory, of_bandwidth, to_bandwidth, of_latency, to_latency, of_address, to_address,
  of_uuid, to_uuid, of_endpoint, to_endpoint,
}

-- The loops that read the elements of an array, one after the other.
module _ {J A K : Type 0} ⦃keys : Eq K⦄ (parse : Supply → J → Result A) (key : A → K) where
  unfoldable pub into_map : Supply → ℕ → List J → Dict K A → Result (Dict K A)
  into_map s n [] m = ok m
  into_map s n (j ∷ js) m = do
    x ← parse (sub s n) j
    into_map s (suc n) js (Dict.insert_or_assign (key x) x m)

module _ {J A : Type 0} (parse : Supply → J → Result A) where
  unfoldable pub into_list : Supply → ℕ → List J → Result (List A)
  into_list s n [] = ok []
  into_list s n (j ∷ js) = do x ← parse (sub s n) j; xs ← into_list s (suc n) js; ok (x ∷ xs)

-- jtransform of a map, and of a sequence
abbrev pub values_json {ℓ} : {J : Type 0} {K : Type ℓ} {A : Type 0} → (A → J) → Dict K A → List J
values_json f m = map (λ e. f e.1) m

module _ {J : Type 0} (l : JsonLib J) where
  open l use {of_string, of_size, of_array}

  unfoldable pub of_interface : Interface → J
  of_interface i = object l (
      ("name", of_string i.name)
      ∷ ("latency", of_latency l i.latency)
      ∷ ("capacity", of_bandwidth l i.capacity)
      ∷ ("mac", of_string i.mac)
      ∷ ("einfo", object l (("ipv4", of_address l i.einfo) ∷ []))
      ∷ [])

  -- The address that the constructor draws is overwritten.
  unfoldable pub to_interface : Supply → J → Result Interface
  to_interface s j = do
    name ← extract_string l j "name"
    latency_j ← extract l j "latency"
    latency ← to_latency l latency_j
    capacity_j ← extract l j "capacity"
    capacity ← to_bandwidth l capacity_j
    mac ← extract_string l j "mac"
    einfo ← extract l j "einfo"
    address_j ← extract l einfo "ipv4"
    address ← to_address l address_j
    ok (record (Interface.create name (s []).mac) {
      latency = latency;
      capacity = capacity;
      mac = mac;
      einfo = address;
    })

module _ {J : Type 0} (l : JsonLib J) (u : UuidLib) where
  open l use {of_string, of_size, of_array}

  unfoldable pub of_network : Network → J
  of_network n = object l (
      ("name", of_string n.name)
      ∷ ("latency", of_latency l n.latency)
      ∷ ("capacity", of_bandwidth l n.bandwidth)
      ∷ ("ipv4", of_address l n.ipv4space)
      ∷ ("id", of_uuid l u n.id)
      ∷ [])

  unfoldable pub to_network : Inet → Supply → J → Result Network
  to_network o s j = do
    name ← extract_string l j "name"
    n ← Network.create o name (s []).id
    latency_j ← extract l j "latency"
    latency ← to_latency l latency_j
    capacity_j ← extract l j "capacity"
    capacity ← to_bandwidth l capacity_j
    id_j ← extract l j "id"
    id ← to_uuid l u (sub s 1) id_j
    space_j ← extract l j "ipv4"
    space ← to_address l space_j
    ok (record n { latency = latency; bandwidth = capacity; id = id; ipv4space = space })

  -- The disk is not written.
  unfoldable pub of_computer : Computer → J
  of_computer c = object l (
      ("name", of_string c.name)
      ∷ ("os", of_string c.os)
      ∷ ("memory", of_memory l c.memory)
      ∷ ("cores", of_size c.cores)
      ∷ ("interfaces", of_array (values_json (of_interface l) c.interfaces))
      ∷ ("id", of_uuid l u c.id)
      ∷ [])

  unfoldable pub to_computer : Supply → J → Result Computer
  to_computer s j = do
    name ← extract_string l j "name"
    let made = Computer.create name (s []).id (s []).mac
    os ← extract_string l j "os"
    memory_j ← extract l j "memory"
    memory ← to_memory l memory_j
    cores ← extract_size l j "cores"
    id_j ← extract l j "id"
    id ← to_uuid l u (sub s 1) id_j
    ifxs ← extract l j "interfaces"
    interfaces ←
        into_map (to_interface l) (λ i. i.name) (sub s 2) 0 (l.elements ifxs) made.interfaces
    ok (record made { os = os; memory = memory; cores = cores; id = id; interfaces = interfaces })

  unfoldable pub of_link : Link → J
  of_link x =
      object l
        (("endpoints", of_array (of_endpoint l u x.first ∷ of_endpoint l u x.second ∷ [])) ∷ [])

  -- eps[0] and eps[1] of a vector; past its end they are undefined.
  unfoldable pub to_link : Supply → J → Result Link
  to_link s j = do
    eps_j ← extract l j "endpoints"
    eps ← l.get_array eps_j
    elim eps [
      | [] ↦ err undefined
      | x ∷ [] ↦ do first ← to_endpoint l u (sub s 0) x; err undefined
      | x ∷ y ∷ rest ↦ do
        first ← to_endpoint l u (sub s 0) x
        second ← to_endpoint l u (sub s 1) y
        ok (record { first = first; second = second })
    ]
