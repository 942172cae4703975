-- ===== src/Ip/Arithmetic.antt =====
-- The arithmetic of addresses: what the operators undo, and how they add up.
use marinatb.Common.{ℕ, ◌+◌, ◌-◌, ◌%◌, ◌<◌, ◌≡◌, arith}
use marinatb.Platform.{Inet, InetLaws}
use marinatb.Ip.{IpV4Address, u32_mod, increment, decrement, plus, minus}

module _ (o : Inet) (laws : InetLaws o) where
  open laws use {ntohl-htonl, htonl-ntohl, ntohl-lt}

  -- The number of an address in host order.
  abbrev pub number : IpV4Address → ℕ
  number a = o.ntohl a.addr

  pub number-plus : (a : IpV4Address) (x : ℕ) → number (plus o a x) ≡ (number a + x) % u32_mod
  unfolding plus
  number-plus a x = ntohl-htonl _ (omega arith)

  -- Adding twice is adding the sum, modulo 2 ^ 32.
  pub plus-plus : (a : IpV4Address) (x y : ℕ) → plus o (plus o a x) y ≡ plus o a ((x + y) % u32_mod)
  unfolding plus
  plus-plus a x y = ground (arith, ntohl-htonl ((o.ntohl a.addr + x) % u32_mod))

  -- `-` undoes `+` for an address and an offset that are 32-bit words, also where `+` wraps round.
  pub minus-plus :
      (a : IpV4Address) (x : ℕ) → a.addr < u32_mod → x < u32_mod → minus o (plus o a x) x ≡ a
  unfolding minus plus
  minus-plus a x ha hx =
      ground
        (arith, ntohl-htonl ((o.ntohl a.addr + x) % u32_mod), htonl-ntohl a.addr, ntohl-lt a.addr)

  -- `++` and `--` undo one another, in either order.
  pub increment-decrement :
      (a : IpV4Address)
      → a.addr < u32_mod
      → (decrement o (increment o a) ≡ a) × (increment o (decrement o a) ≡ a)
  unfolding increment decrement
  increment-decrement a ha = ground (
    arith,
    ntohl-htonl ((o.ntohl a.addr + 1) % u32_mod),
    ntohl-htonl ((o.ntohl a.addr + u32_mod - 1) % u32_mod),
    htonl-ntohl a.addr,
    ntohl-lt a.addr,
  )
