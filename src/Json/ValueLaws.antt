-- ===== src/Json/ValueLaws.antt =====
-- Reading ids, endpoints, units and addresses that were written.
use marinatb.Common.{
  ℕ, ◌^◌, ◌%◌, ◌<◌, ◌≡◌, refl, none, some, Option, [], ◌∷◌, ok, arith, size_mod, String,
}
use marinatb.Common.Dict.{Dict}
use marinatb.Platform.{JsonLib, JsonLaws, UuidLib, UuidLaws}
use marinatb.Units.Memory
use marinatb.Units.Memory.{Memory}
use marinatb.Units.Bandwidth
use marinatb.Units.Bandwidth.{Bandwidth}
use marinatb.Units.Latency
use marinatb.Units.Latency.{Latency}
use marinatb.Units.Words.{memory-parse_unit_iff, bandwidth-parse_unit_iff, latency-parse_unit_iff}
use marinatb.Ip.{IpV4Address, u32_mod}
use marinatb.Ident.{Uuid, Endpoint}
use marinatb.Json.Object.{
  object, extract_string, extract_size, Supply, sub, last_field, extract-object, has-object,
  has-field,
}
use marinatb.Json.Values.{
  of_memory, to_memory, of_bandwidth, to_bandwidth, of_latency, to_latency, of_address, to_address,
  of_uuid, to_uuid, of_endpoint, to_endpoint,
}

-- The values that the types of the code can hold.
abbrev pub IsUuid : Uuid → Type 0
IsUuid id = id < 2 ^ 128

abbrev pub IsAddress : IpV4Address → Type 0
IsAddress a = (a.addr < u32_mod) × (a.mask < u32_mod)

module _ {J : Type 0} (l : JsonLib J) (laws : JsonLaws l) where
  pub string-object :
      (fields : Dict String J) (k t : String)
      → last_field k fields none ≡ some (l.of_string t)
      → extract_string l (object l fields) k ≡ ok t
  string-object fields k t h =
      rw (extract-object l laws fields k (l.of_string t) h) (laws.get_string-of_string t)

  pub size-object :
      (fields : Dict String J) (k : String) (n : ℕ)
      → last_field k fields none ≡ some (l.of_size n)
      → n < size_mod
      → extract_size l (object l fields) k ≡ ok n
  size-object fields k n h b =
      rw (extract-object l laws fields k (l.of_size n) h) (laws.get_size-of_size n b)

  pub memory-read : (m : Memory) → m.size < size_mod → to_memory l (of_memory l m) ≡ ok m
  unfolding to_memory of_memory
  memory-read m h = rw (
    size-object _ "value" m.size refl h,
    string-object _ "unit" (Memory.to_string m.unit) refl,
    (memory-parse_unit_iff _ m.unit).1 refl,
  )

  pub bandwidth-read :
      (x : Bandwidth) → x.size < size_mod → to_bandwidth l (of_bandwidth l x) ≡ ok x
  unfolding to_bandwidth of_bandwidth
  bandwidth-read x h = rw (
    size-object _ "value" x.size refl h,
    string-object _ "unit" (Bandwidth.to_string x.unit) refl,
    (bandwidth-parse_unit_iff _ x.unit).1 refl,
  )

  pub latency-read : (x : Latency) → x.size < size_mod → to_latency l (of_latency l x) ≡ ok x
  unfolding to_latency of_latency
  latency-read x h = rw (
    size-object _ "value" x.size refl h,
    string-object _ "unit" (Latency.to_string x.unit) refl,
    (latency-parse_unit_iff _ x.unit).1 refl,
  )

  pub address-read : (a : IpV4Address) → IsAddress a → to_address l (of_address l a) ≡ ok a
  unfolding to_address of_address
  address-read a h =
      let addr : a.addr % u32_mod ≡ a.addr = omega (arith, h.0) in
      let mask : a.mask % u32_mod ≡ a.mask = omega (arith, h.1) in
      rw (
        size-object _ "addr" a.addr refl (omega (arith, h.0)),
        size-object _ "mask" a.mask refl (omega (arith, h.1)),
        addr,
        mask,
      )

module _ {J : Type 0} (l : JsonLib J) (laws : JsonLaws l) (u : UuidLib) (uuids : UuidLaws u) where
  pub uuid-read : (s : Supply) (id : Uuid) → IsUuid id → to_uuid l u s (of_uuid l u id) ≡ ok id
  unfolding to_uuid of_uuid
  uuid-read s id h = rw (string-object l laws _ "id" (u.unparse id) refl, uuids.parse-unparse id h)

  mac-read :
      (s : Supply) (id : Uuid) (mac : Option String)
      → IsUuid id
      → to_endpoint l u s (of_endpoint l u (record { id = id; mac = mac }))
        ≡ ok (record { id = id; mac = mac })
  unfolding to_endpoint of_endpoint
  mac-read s id none h = rw (
    extract-object l laws _ "id" (of_uuid l u id) refl,
    uuid-read (sub s 1) id h,
    has-object l laws (("id", of_uuid l u id) ∷ []) "mac" refl,
  )
  mac-read s id (some mac) h = rw (
    extract-object l laws _ "id" (of_uuid l u id) refl,
    uuid-read (sub s 1) id h,
    has-field l laws (("id", of_uuid l u id) ∷ ("mac", l.of_string mac) ∷ []) "mac"
        (l.of_string mac) refl,
    string-object l laws _ "mac" mac refl,
  )

  pub endpoint-read :
      (s : Supply) (e : Endpoint) → IsUuid e.id → to_endpoint l u s (of_endpoint l u e) ≡ ok e
  endpoint-read s e h = mac-read s e.id e.mac h
