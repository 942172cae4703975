-- ===== src/Ident.antt =====
-- Uuid and Endpoint (core/util.hxx, core/util.cxx). An id is the number that its 16 bytes stand for:
-- uuid_compare finds two ids equal exactly if their bytes are. A new id is an argument of the
-- operation that makes it.
pub mod Mac
pub mod Laws
use marinatb.Common.{
  ℕ, String, Bool, true, false, not, Option, none, some, if◌then◌else◌, ◌==◌, nat_eq, string_eq,
}

abbrev pub Uuid : Type 0
Uuid = ℕ

pub record Endpoint : Type 0 where
  pub id : Uuid
  pub mac : Option String

-- Endpoint(Uuid) and Endpoint(Uuid, optional<string>)
abbrev pub of_id : Uuid → Endpoint
of_id u = record { id = u; mac = none }

abbrev pub of_mac : Uuid → String → Endpoint
of_mac u m = record { id = u; mac = some m }

mac_eq : Option String → Option String → Bool
mac_eq none _ = true
mac_eq (some m) none = false
mac_eq (some m) (some n) = m == n

-- operator ==: the addresses are compared only where the left side has one.
unfoldable pub eq : Endpoint → Endpoint → Bool
unfolding mac_eq
eq a b = if a.id == b.id then mac_eq a.mac b.mac else false

-- operator == and operator != of Uuid
unfoldable pub uuid_eq : Uuid → Uuid → Bool
uuid_eq a b = a == b

unfoldable pub uuid_ne : Uuid → Uuid → Bool
uuid_ne a b = not (uuid_eq a b)
