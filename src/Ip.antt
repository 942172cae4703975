-- ===== src/Ip.antt =====
-- class IpV4Address (core/blueprint.hxx, core/blueprint.cxx). The address is in network byte order,
-- the arithmetic is on `uint32_t`.
pub mod Arithmetic
mod Examples
use Prim.Native.String.{◌++◌}
use marinatb.Common.{
  ℕ, ◌+◌, ◌-◌, ◌%◌, ◌^◌, String, Bool, Result, ok, runtime_error, or_throw, ◌>>=◌, nat_beq,
}
use marinatb.Platform.{Inet}

pub record IpV4Address : Type 0 where
  pub addr : ℕ
  pub mask : ℕ

-- IpV4Address(): both members are 0.
abbrev pub unset : IpV4Address
unset = record { addr = 0; mask = 0 }

abbrev pub u32_mod : ℕ
u32_mod = 2 ^ 32

module _ (o : Inet) where
  open o use {htonl, ntohl, pton}

  -- IpV4Address(const string &, uint32_t)
  unfoldable pub of_string : String → ℕ → Result IpV4Address
  of_string text mask = do
    a ← or_throw (pton text) runtime_error
    ok (record { addr = a; mask = mask })

  unfoldable pub increment : IpV4Address → IpV4Address
  increment a = record a { addr = htonl ((ntohl a.addr + 1) % u32_mod) }

  unfoldable pub decrement : IpV4Address → IpV4Address
  decrement a = record a { addr = htonl ((ntohl a.addr + u32_mod - 1) % u32_mod) }

  unfoldable pub net_zero : IpV4Address → Bool
  net_zero a = nat_beq (ntohl a.addr % 256) 0

  unfoldable pub plus : IpV4Address → ℕ → IpV4Address
  plus a x = record a { addr = htonl ((ntohl a.addr + x) % u32_mod) }

  unfoldable pub minus : IpV4Address → ℕ → IpV4Address
  minus a x = record a { addr = htonl ((ntohl a.addr + u32_mod - x) % u32_mod) }

-- addrStr and cidr; `ntop` is inet_ntop, and `decimal` the digits of a number. operator << prints the
-- latter.
module _ (ntop : ℕ → String) (decimal : ℕ → String) where
  unfoldable pub addr_str : IpV4Address → String
  addr_str a = ntop a.addr

  unfoldable pub cidr : IpV4Address → String
  cidr a = addr_str a ++ ("/" ++ decimal a.mask)
