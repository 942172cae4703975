-- ===== src/Topo/Host.antt =====
-- class Host: a computer of the site, and the machines that are placed on it.
use marinatb.Common.{
  ℕ, String, Bool, not, ◌&&◌, ◌==◌, string_eq, nat_beq, List, [], ◌∷◌, Result, ok, out_of_range,
  or_throw, ◌>>=◌, if◌then◌else◌, map,
}
use marinatb.Common.Dict
use marinatb.Platform.{Double}
use marinatb.Units.Memory
use marinatb.Units.Memory.{Memory}
use marinatb.Blueprint.Interface.{Interface}
use marinatb.Units.Bandwidth.{Bandwidth, gbps}
use marinatb.Units.Latency.{ms}
use marinatb.Ident.{Uuid}
use marinatb.Blueprint.Computer
use marinatb.Blueprint.Computer.{Computer, interfaces_eq}

pub record Host : Type 0 where
  pub host_comp : Computer
  pub machines : List Computer

abbrev pub id : Host → Uuid
id h = h.host_comp.id

abbrev pub name : Host → String
name h = h.host_comp.name

-- name, memory, disk and cores with an argument, and ifx: those of the computer
unfoldable pub set_name : Host → String → Host
set_name h x = record h { host_comp = Computer.set_name h.host_comp x }

unfoldable pub set_memory : Host → Memory → Host
set_memory h x = record h { host_comp = Computer.set_memory h.host_comp x }

unfoldable pub set_disk : Host → Memory → Host
set_disk h x = record h { host_comp = Computer.set_disk h.host_comp x }

unfoldable pub set_cores : Host → ℕ → Host
set_cores h x = record h { host_comp = Computer.set_cores h.host_comp x }

unfoldable pub ifx : Host → String → Result Interface
ifx h x = Computer.ifx h.host_comp x

-- add_ifx
unfoldable pub add_ifx : Host → String → Bandwidth → String → Host
add_ifx h ifx bw mac = record h {
  host_comp = Computer.add_ifx h.host_comp ifx bw (record { size = 0; unit = ms }) mac;
}

-- remove_ifx
unfoldable pub remove_ifx : Host → String → Host
remove_ifx h ifx = record h { host_comp = Computer.remove_ifx h.host_comp ifx }

-- Host(string): a computer, whose constructor adds the control interface, with an interface "ifx".
unfoldable pub create : String → Uuid → String → String → Host
unfolding add_ifx
create name id cifx_mac ifx_mac =
    add_ifx (record { host_comp = Computer.create name id cifx_mac; machines = [] }) "ifx"
      (record { size = 0; unit = gbps }) ifx_mac

-- The test of the loop of removeMachine; `at` throws where a machine has no control interface.
control_mac : Computer → Result String
control_mac c = do i ← or_throw (Dict.find "cifx" c.interfaces) out_of_range; ok i.mac

without_mac : String → List Computer → Result (List Computer)
without_mac mac [] = ok []
without_mac mac (c ∷ cs) = do
  m ← control_mac c
  rest ← without_mac mac cs
  ok (if m == mac then rest else c ∷ rest)

unfoldable pub remove_machine : Host → String → Result Host
unfolding without_mac control_mac
remove_machine h mac = do left ← without_mac mac h.machines; ok (record h { machines = left })

-- clone: the computer is cloned, its id included. `macs` has the address that the constructor of
-- each copy draws for its control interface.
unfoldable pub clone : Host → Uuid → (Uuid → String) → Host
clone h fresh macs = record {
  host_comp = Computer.clone h.host_comp fresh (macs (id h));
  machines = map (λ c. Computer.clone c fresh (macs c.id)) h.machines;
}

module _ {F : Type 0} (d : Double F) where
  -- operator ==: the machines are not compared.
  unfoldable pub eq : Host → Host → Bool
  eq a b =
      name a == name b
      && nat_beq a.host_comp.cores b.host_comp.cores
      && Memory.eq a.host_comp.memory b.host_comp.memory
      && Memory.eq a.host_comp.disk b.host_comp.disk
      && interfaces_eq d a.host_comp.interfaces b.host_comp.interfaces

  unfoldable pub ne : Host → Host → Bool
  ne a b = not (eq a b)
