-- ===== src/Json/Built.antt =====
-- The blueprints that the operations make, as JSON (core/blueprint.cxx).
use marinatb.Common.{
  ℕ, String, ◌≡◌, refl, subst, string_eq, nat_eq, Option, none, some, Result, ok, err, ◌<◌,
  size_mod, arith, ok-injective, runtime_error, or_throw, ◌>>=◌,
}
use marinatb.Common.Dict
use marinatb.Common.Dict.{Dict}
use marinatb.Platform.{Inet}
use marinatb.Ip.{IpV4Address, of_string, u32_mod}
use marinatb.Ident.{Uuid}
use marinatb.Units.Bandwidth.{Bandwidth}
use marinatb.Units.Latency.{Latency}
use marinatb.Blueprint.Interface
use marinatb.Blueprint.Interface.{Interface}
use marinatb.Blueprint.Network
use marinatb.Blueprint.Network.{Network}
use marinatb.Blueprint.Computer
use marinatb.Blueprint.Computer.{Computer, setup_ifx}
use marinatb.Blueprint.Edits.{
  InterfaceEdit, ComputerEdit, NetworkEdit, interface_name, interface_latency, interface_capacity,
  computer_name, computer_os, computer_memory, computer_disk, computer_cores, interface_added,
  interface_removed, interface_edited, network_name, network_capacity, network_latency,
  network_space, edit_interface, edit_computer, edit_network, unless_thrown,
}
use marinatb.Json.ValueLaws.{IsUuid, IsAddress}
use marinatb.Json.PartLaws.{IsNetwork, IsComputer}
use marinatb.Json.InRange.{
  InterfaceInRange, ComputerInRange, NetworkInRange, PtonInRange, Interfaces, update-Interfaces,
  erase-Interfaces, emplace-Interfaces,
}

added-Interfaces :
    (name mac : String) (capacity : Bandwidth) (latency : Latency) (m : Dict String Interface)
    → capacity.size < size_mod
    → latency.size < size_mod
    → Interfaces m
    → Interfaces (
        Dict.update name
          (setup_ifx name capacity latency)
          (Dict.emplace name (Interface.create name mac) m))
added-Interfaces name mac capacity latency m a b h =
    unfold setup_ifx in
    update-Interfaces name (setup_ifx name capacity latency) _ (λ i e. e) (λ i g. (b, a, g.2))
      (emplace-Interfaces name mac m h)

edited-Interfaces :
    (name : String) (e : InterfaceEdit) (m : Dict String Interface)
    → InterfaceInRange e
    → Interfaces m
    → Interfaces (Dict.update name (edit_interface e) m)
unfolding edit_interface Interface.set_latency Interface.set_capacity
edited-Interfaces name (interface_name x) m r h = elim r [ ]
edited-Interfaces name (interface_latency x) m r h =
    update-Interfaces name _ m (λ i e. refl) (λ i g. (r, g.1, g.2)) h
edited-Interfaces name (interface_capacity x) m r h =
    update-Interfaces name _ m (λ i e. refl) (λ i g. (g.0, r, g.2)) h

pub edit_computer-IsComputer :
    (e : ComputerEdit) (c : Computer)
    → ComputerInRange e
    → IsComputer c
    → IsComputer (edit_computer e c)
unfolding edit_computer Computer.set_name Computer.set_os Computer.set_memory Computer.set_disk
    Computer.set_cores Computer.add_ifx Computer.remove_ifx Interfaces
edit_computer-IsComputer (computer_name x) c r h = h
edit_computer-IsComputer (computer_os x) c r h = h
edit_computer-IsComputer (computer_memory x) c r h = (r, h.1, h.2, h.3)
edit_computer-IsComputer (computer_disk x) c r h = h
edit_computer-IsComputer (computer_cores x) c r h = (h.0, r, h.2, h.3)
edit_computer-IsComputer (interface_added name capacity latency mac) c r h =
    (h.0, h.1, h.2, added-Interfaces name mac capacity latency c.interfaces r.0 r.1 h.3)
edit_computer-IsComputer (interface_removed name) c r h =
    (h.0, h.1, h.2, erase-Interfaces name c.interfaces r h.3)
edit_computer-IsComputer (interface_edited name e) c r h =
    (h.0, h.1, h.2, edited-Interfaces name e c.interfaces r h.3)

pub create-IsComputer :
    (name mac : String) (id : Uuid) → IsUuid id → IsComputer (Computer.create name id mac)
unfolding Computer.create Computer.add_ifx setup_ifx Dict.update Dict.emplace Interface.create
    Dict.find
create-IsComputer name mac id h = (
  omega arith,
  omega arith,
  h,
  (_, refl, ((refl, tt), (refl, tt)), ((omega arith, omega arith, (omega arith, omega arith)), tt)),
)

module _ (o : Inet) (pton : PtonInRange o) where
  pub of_string-IsAddress :
      (text : String) (mask : ℕ) (a : IpV4Address)
      → mask < u32_mod
      → of_string o text mask ≡ ok a
      → IsAddress a
  unfolding of_string
  of_string-IsAddress text mask a m h = settle (o.pton text) refl h
    where
      settle :
          (x : Option ℕ)
          → o.pton text ≡ x
          → (or_throw x runtime_error >>= λ b. ok (record { addr = b; mask = mask })) ≡ ok a
          → IsAddress a
      settle none e q = cc
      settle (some b) e q = subst IsAddress (ok-injective q) (pton text b e, m)

  pub edit_network-IsNetwork :
      (e : NetworkEdit) (n : Network)
      → NetworkInRange e
      → IsNetwork n
      → IsNetwork (edit_network o e n)
  unfolding edit_network Network.set_name Network.set_capacity Network.set_latency Network.set_ipv4
  edit_network-IsNetwork (network_name x) n r h = h
  edit_network-IsNetwork (network_capacity x) n r h = (h.0, r, h.2, h.3)
  edit_network-IsNetwork (network_latency x) n r h = (r, h.1, h.2, h.3)
  edit_network-IsNetwork (network_space addr mask) n r h = settle (of_string o addr mask) refl
    where
      settle :
          (x : Result IpV4Address)
          → of_string o addr mask ≡ x
          → IsNetwork (unless_thrown n (x >>= λ space. ok (record n { ipv4space = space })))
      settle (err t) e = h
      settle (ok a) e = (h.0, h.1, of_string-IsAddress addr mask a r e, h.3)
