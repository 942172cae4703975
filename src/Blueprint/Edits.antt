-- ===== src/Blueprint/Edits.antt =====
-- Calls on the handles of components that a blueprint holds (core/blueprint.cxx): a handle shares its
-- object with the blueprint, which reads what is written.
use marinatb.Common.{
  ℕ, String, ◌≡◌, refl, Result, ok, err, nat_eq, string_eq, ap, sym, >>=-eq-ok, ok-injective,
}
use marinatb.Common.Dict
use marinatb.Platform.{Inet}
use marinatb.Units.Memory.{Memory}
use marinatb.Units.Bandwidth.{Bandwidth}
use marinatb.Units.Latency.{Latency}
use marinatb.Ip.{of_string}
use marinatb.Ident.{Uuid}
use marinatb.Blueprint.Interface
use marinatb.Blueprint.Interface.{Interface}
use marinatb.Blueprint.Network
use marinatb.Blueprint.Network.{Network}
use marinatb.Blueprint.Computer
use marinatb.Blueprint.Computer.{Computer}
use marinatb.Blueprint.Store.{Blueprint}

pub data InterfaceEdit : Type 0 where
  interface_name : String → InterfaceEdit
  interface_latency : Latency → InterfaceEdit
  interface_capacity : Bandwidth → InterfaceEdit

pub data ComputerEdit : Type 0 where
  computer_name computer_os : String → ComputerEdit
  computer_memory computer_disk : Memory → ComputerEdit
  computer_cores : ℕ → ComputerEdit
  interface_added : String → Bandwidth → Latency → String → ComputerEdit
  interface_removed : String → ComputerEdit
  interface_edited : String → InterfaceEdit → ComputerEdit

pub data NetworkEdit : Type 0 where
  network_name : String → NetworkEdit
  network_capacity : Bandwidth → NetworkEdit
  network_latency : Latency → NetworkEdit
  network_space : String → ℕ → NetworkEdit

unfoldable pub edit_interface : InterfaceEdit → Interface → Interface
edit_interface (interface_name x) i = Interface.set_name i x
edit_interface (interface_latency x) i = Interface.set_latency i x
edit_interface (interface_capacity x) i = Interface.set_capacity i x

unfoldable pub edit_computer : ComputerEdit → Computer → Computer
edit_computer (computer_name x) c = Computer.set_name c x
edit_computer (computer_os x) c = Computer.set_os c x
edit_computer (computer_memory x) c = Computer.set_memory c x
edit_computer (computer_disk x) c = Computer.set_disk c x
edit_computer (computer_cores x) c = Computer.set_cores c x
edit_computer (interface_added name capacity latency mac) c =
    Computer.add_ifx c name capacity latency mac
edit_computer (interface_removed name) c = Computer.remove_ifx c name
edit_computer (interface_edited name e) c = record c {
  interfaces = Dict.update name (edit_interface e) c.interfaces;
}

-- A call that throws changes nothing.
abbrev pub unless_thrown : Network → Result Network → Network
unless_thrown n (ok changed) = changed
unless_thrown n (err e) = n

unfoldable pub edit_network : Inet → NetworkEdit → Network → Network
edit_network o (network_name x) n = Network.set_name n x
edit_network o (network_capacity x) n = Network.set_capacity n x
edit_network o (network_latency x) n = Network.set_latency n x
edit_network o (network_space addr mask) n = unless_thrown n (Network.set_ipv4 o n addr mask)

-- A call on the handle of the component with this id. The handle of one that was removed, which shares
-- nothing with the blueprint, has an id that is not there.
unfoldable pub computer_edited : Blueprint → Uuid → ComputerEdit → Blueprint
computer_edited bp id e = record bp { computers = Dict.update id (edit_computer e) bp.computers }

unfoldable pub network_edited : Inet → Blueprint → Uuid → NetworkEdit → Blueprint
network_edited o bp id e = record bp { networks = Dict.update id (edit_network o e) bp.networks }

pub edit_computer-id : (e : ComputerEdit) (c : Computer) → (edit_computer e c).id ≡ c.id
unfolding edit_computer Computer.set_name Computer.set_os Computer.set_memory Computer.set_disk
    Computer.set_cores Computer.add_ifx Computer.remove_ifx
edit_computer-id (computer_name x) c = refl
edit_computer-id (computer_os x) c = refl
edit_computer-id (computer_memory x) c = refl
edit_computer-id (computer_disk x) c = refl
edit_computer-id (computer_cores x) c = refl
edit_computer-id (interface_added name capacity latency mac) c = refl
edit_computer-id (interface_removed name) c = refl
edit_computer-id (interface_edited name e) c = refl

spaced-id :
    (n : Network) (r : Result Network)
    → ((m : Network) → r ≡ ok m → m.id ≡ n.id)
    → (unless_thrown n r).id ≡ n.id
spaced-id n (ok m) h = h m refl
spaced-id n (err e) h = refl

set_ipv4-id :
    (o : Inet) (n m : Network) (addr : String) (mask : ℕ)
    → Network.set_ipv4 o n addr mask ≡ ok m
    → m.id ≡ n.id
unfolding Network.set_ipv4
set_ipv4-id o n m addr mask h =
    let one = >>=-eq-ok (of_string o addr mask) _ h in
    ap (λ (x : Network). x.id) (sym (ok-injective one.2))

pub edit_network-id : (o : Inet) (e : NetworkEdit) (n : Network) → (edit_network o e n).id ≡ n.id
unfolding edit_network Network.set_name Network.set_capacity Network.set_latency
edit_network-id o (network_name x) n = refl
edit_network-id o (network_capacity x) n = refl
edit_network-id o (network_latency x) n = refl
edit_network-id o (network_space addr mask) n =
    spaced-id n (Network.set_ipv4 o n addr mask) (λ m. set_ipv4-id o n m addr mask)
