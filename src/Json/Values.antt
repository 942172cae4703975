-- ===== src/Json/Values.antt =====
-- Ids, endpoints, units and addresses as JSON (core/util.cxx, core/blueprint.cxx).
use marinatb.Common.{◌%◌, String, Option, none, some, [], ◌∷◌, Result, ok, ◌>>=◌, if◌then◌else◌}
use marinatb.Common.Dict.{Dict}
use marinatb.Platform.{JsonLib, UuidLib}
use marinatb.Units.Memory
use marinatb.Units.Memory.{Memory}
use marinatb.Units.Bandwidth
use marinatb.Units.Bandwidth.{Bandwidth}
use marinatb.Units.Latency
use marinatb.Units.Latency.{Latency}
use marinatb.Ip.{IpV4Address, u32_mod}
use marinatb.Ident.{Uuid, Endpoint}
use marinatb.Json.Object.{object, extract, extract_string, extract_size, Supply, sub}

module _ {J : Type 0} (l : JsonLib J) where
  open l use {of_string, of_size}

  unfoldable pub of_memory : Memory → J
  of_memory m =
      object l (("value", of_size m.size) ∷ ("unit", of_string (Memory.to_string m.unit)) ∷ [])

  unfoldable pub to_memory : J → Result Memory
  to_memory j = do
    size ← extract_size l j "value"
    text ← extract_string l j "unit"
    unit ← Memory.parse_unit text
    ok (record { size = size; unit = unit })

  unfoldable pub of_bandwidth : Bandwidth → J
  of_bandwidth x =
      object l (("value", of_size x.size) ∷ ("unit", of_string (Bandwidth.to_string x.unit)) ∷ [])

  unfoldable pub to_bandwidth : J → Result Bandwidth
  to_bandwidth j = do
    size ← extract_size l j "value"
    text ← extract_string l j "unit"
    unit ← Bandwidth.parse_unit text
    ok (record { size = size; unit = unit })

  unfoldable pub of_latency : Latency → J
  of_latency x =
      object l (("value", of_size x.size) ∷ ("unit", of_string (Latency.to_string x.unit)) ∷ [])

  unfoldable pub to_latency : J → Result Latency
  to_latency j = do
    size ← extract_size l j "value"
    text ← extract_string l j "unit"
    unit ← Latency.parse_unit text
    ok (record { size = size; unit = unit })

  unfoldable pub of_address : IpV4Address → J
  of_address a = object l (("addr", of_size a.addr) ∷ ("mask", of_size a.mask) ∷ [])

  -- The two sizes are assigned to members of 32 bits.
  unfoldable pub to_address : J → Result IpV4Address
  to_address j = do
    addr ← extract_size l j "addr"
    mask ← extract_size l j "mask"
    ok (record { addr = addr % u32_mod; mask = mask % u32_mod })

module _ {J : Type 0} (l : JsonLib J) (u : UuidLib) where
  unfoldable pub of_uuid : Uuid → J
  of_uuid id = object l (("id", l.of_string (u.unparse id)) ∷ [])

  abbrev pub parsed_or : Uuid → Option Uuid → Uuid
  parsed_or fresh none = fresh
  parsed_or fresh (some id) = id

  -- The result of uuid_parse is not looked at: where it fails, the new id stays.
  unfoldable pub to_uuid : Supply → J → Result Uuid
  to_uuid s j = do text ← extract_string l j "id"; ok (parsed_or (s []).id (u.parse text))

  abbrev pub mac_field : Option String → Dict String J
  mac_field none = []
  mac_field (some mac) = ("mac", l.of_string mac) ∷ []

  unfoldable pub of_endpoint : Endpoint → J
  of_endpoint e = object l (("id", of_uuid e.id) ∷ mac_field e.mac)

  unfoldable pub to_endpoint : Supply → J → Result Endpoint
  to_endpoint s j = do
    id_j ← extract l j "id"
    id ← to_uuid (sub s 1) id_j
    let with_mac : Result Endpoint = do
      mac ← extract_string l j "mac"
      ok (record { id = id; mac = some mac })
    if l.has j "mac" then with_mac else ok (record { id = id; mac = none })
