-- ===== src/Materialize/AddressLaws.antt =====
-- The addresses on one network (core/materialization-service.cxx).
use marinatb.Common.{
  ℕ, ◌+◌, ◌*◌, ◌%◌, ◌≤◌, ◌<◌, ◌≡◌, ◌≢◌, false, List, [], ◌∷◌, All, All-map, ap, subst, arith,
  length,
}
use marinatb.Platform.{Inet, InetLaws}
use marinatb.Ip.{IpV4Address, u32_mod, increment, net_zero}
use marinatb.Ip.Arithmetic.{number}
use marinatb.Blueprint.Interface.{Interface}
use marinatb.Blueprint.Computer.{Computer}
use marinatb.Materialize.Addresses.{skip_net_zero, set_addresses}

module _ (o : Inet) (laws : InetLaws o) where
  open laws use {ntohl-htonl}

  -- The address of an interface in host order.
  abbrev pub address : Computer × Interface → ℕ
  address m = number o laws m.1.einfo

  -- Each address is at least the bound, does not end in 0, and is below the later ones.
  abbrev pub Rising : ℕ → List (Computer × Interface) → Type 0
  Rising n [] = Unit
  Rising n (m ∷ ms) = (n ≤ address m) × (address m % 256 ≢ 0) × Rising (address m + 1) ms

  number-increment :
      (a : IpV4Address) → o.ntohl (increment o a).addr ≡ (o.ntohl a.addr + 1) % u32_mod
  unfolding increment
  number-increment a = ntohl-htonl _ (omega arith)

  number-skip :
      (a : IpV4Address)
      → o.ntohl a.addr + 1 < u32_mod
      → (o.ntohl a.addr ≤ o.ntohl (skip_net_zero o a).addr)
        × (o.ntohl (skip_net_zero o a).addr ≤ o.ntohl a.addr + 1)
        × (o.ntohl (skip_net_zero o a).addr % 256 ≢ 0)
  unfolding net_zero
  number-skip a h = ground (arith, number-increment a)

  set_addresses-Rising :
      (a : IpV4Address) (ms : List (Computer × Interface))
      → o.ntohl a.addr + 2 * length ms < u32_mod
      → Rising (o.ntohl a.addr) (set_addresses o a ms)
  unfolding set_addresses
  set_addresses-Rising a [] h = tt
  set_addresses-Rising a ((c, i) ∷ ms) h =
      let here = skip_net_zero o a in
      let bounds = number-skip a (omega arith) in
      let next : o.ntohl (increment o here).addr ≡ o.ntohl here.addr + 1 =
        omega (arith, number-increment here, bounds.0, bounds.1) in
      (
        bounds.0,
        bounds.2,
        subst (λ n. Rising n (set_addresses o (increment o here) ms)) next
            (set_addresses-Rising (increment o here) ms (omega (arith, next, bounds.1))),
      )

  Rising-bound :
      (n : ℕ) (ms : List (Computer × Interface)) → Rising n ms → All (λ m. n ≤ address m) ms
  Rising-bound n [] r = tt
  Rising-bound n (m ∷ ms) r =
      (r.0, All-map (λ x b. omega (arith, b, r.0)) ms (Rising-bound (address m + 1) ms r.2))

  -- No two interfaces have one address, and no address is that of a network.
  abbrev pub Differ : List (Computer × Interface) → Type 0
  Differ [] = Unit
  Differ (m ∷ ms) =
      (net_zero o m.1.einfo ≡ false) × All (λ x. x.1.einfo.addr ≢ m.1.einfo.addr) ms × Differ ms

  Rising-Differ : (n : ℕ) (ms : List (Computer × Interface)) → Rising n ms → Differ ms
  unfolding net_zero
  Rising-Differ n [] r = tt
  Rising-Differ n (m ∷ ms) r = (
    ground (arith, r.1),
    All-map (λ x b e. absurd (omega (arith, b, ap o.ntohl e))) ms
        (Rising-bound (address m + 1) ms r.2),
    Rising-Differ (address m + 1) ms r.2,
  )

  -- The interfaces on a network get addresses that differ, none of which is that of a network, if there
  -- is room below 2 ^ 32 for two addresses for each.
  pub set_addresses-Differ :
      (a : IpV4Address) (ms : List (Computer × Interface))
      → o.ntohl a.addr + 2 * length ms < u32_mod
      → Differ (set_addresses o a ms)
  set_addresses-Differ a ms h = Rising-Differ (o.ntohl a.addr) _ (set_addresses-Rising a ms h)
