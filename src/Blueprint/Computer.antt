-- ===== src/Blueprint/Computer.antt =====
-- class Computer. The interfaces are a map by name.
use marinatb.Common.{
  ℕ, String, Bool, true, false, not, ◌&&◌, ◌==◌, string_eq, nat_eq, nat_beq, Option, none, some, [],
  ◌∷◌, Result, runtime_error, or_throw, find_if,
}
use marinatb.Common.Dict
use marinatb.Common.Dict.{Dict}
use marinatb.Platform.{Double, Pipes}
use marinatb.Units.Memory
use marinatb.Units.Memory.{Memory, gb}
use marinatb.Units.Bandwidth
use marinatb.Units.Bandwidth.{Bandwidth, gbps}
use marinatb.Units.Latency.{Latency, ms}
use marinatb.Ident.{Uuid}
use marinatb.Blueprint.HwSpec.{HwSpec}
use marinatb.Blueprint.Interface
use marinatb.Blueprint.Interface.{Interface}

pub record Computer : Type 0 where
  pub name : String
  pub os : String
  pub memory : Memory
  pub disk : Memory
  pub cores : ℕ
  pub id : Uuid
  pub interfaces : Dict String Interface

-- name, os, memory, disk and cores with an argument
unfoldable pub set_name : Computer → String → Computer
set_name c x = record c { name = x }

unfoldable pub set_os : Computer → String → Computer
set_os c x = record c { os = x }

unfoldable pub set_memory : Computer → Memory → Computer
set_memory c x = record c { memory = x }

unfoldable pub set_disk : Computer → Memory → Computer
set_disk c x = record c { disk = x }

unfoldable pub set_cores : Computer → ℕ → Computer
set_cores c x = record c { cores = x }

-- What `add_ifx` does to the entry that `emplace` returns.
unfoldable pub setup_ifx : String → Bandwidth → Latency → Interface → Interface
setup_ifx name capacity latency i = record i { name = name; capacity = capacity; latency = latency }

-- add_ifx; `mac` is the address that a new interface draws.
unfoldable pub add_ifx : Computer → String → Bandwidth → Latency → String → Computer
unfolding setup_ifx
add_ifx c name capacity latency mac = record c {
  interfaces =
      Dict.update name (setup_ifx name capacity latency)
        (Dict.emplace name (Interface.create name mac) c.interfaces);
}

unfoldable pub remove_ifx : Computer → String → Computer
remove_ifx c name = record c { interfaces = Dict.erase name c.interfaces }

-- Computer(string), with its new id and the address of its control interface
unfoldable pub create : String → Uuid → String → Computer
unfolding add_ifx
create name id mac =
    add_ifx
      (record {
        name = name;
        os = "ubuntu-server-15.10";
        memory = record { size = 4; unit = gb };
        disk = record { size = 10; unit = gb };
        cores = 2;
        id = id;
        interfaces = [];
      })
      "cifx" (record { size = 1; unit = gbps }) (record { size = 0; unit = ms }) mac

unfoldable pub ifx : Computer → String → Result Interface
ifx c name = or_throw (Dict.find name c.interfaces) runtime_error

unfoldable pub has_mac : String → String × Interface → Bool
has_mac m (_, i) = i.mac == m

unfoldable pub get_interface_by_mac : Computer → String → Result Interface
unfolding has_mac
get_interface_by_mac c m = or_throw (Dict.second (find_if (has_mac m) c.interfaces)) runtime_error

-- The body of the loop of `clone` over the interfaces.
clone_interfaces : Dict String Interface → Dict String Interface → Dict String Interface
clone_interfaces [] out = out
clone_interfaces ((k, i) ∷ m) out =
    clone_interfaces m (Dict.insert_or_assign k (Interface.clone i) out)

-- clone; the temporary id and address that the constructor draws are arguments.
unfoldable pub clone : Computer → Uuid → String → Computer
unfolding create clone_interfaces
clone c fresh mac =
    let made = create c.name fresh mac in
    record made {
      os = c.os;
      memory = c.memory;
      disk = c.disk;
      cores = c.cores;
      id = c.id;
      interfaces = clone_interfaces c.interfaces made.interfaces;
    }

module _ {F : Type 0} (p : Pipes F) where
  -- hwspec: the memory is in bytes, the disk in megabytes.
  unfoldable pub hwspec : Computer → HwSpec
  hwspec c = record {
    proc = c.cores;
    mem = Memory.bytes c.memory;
    net = p.reduce_sizes (p.map (λ e. Bandwidth.megabits e.1.capacity) c.interfaces);
    disk = Memory.megabytes c.disk;
  }

module _ {F : Type 0} (d : Double F) where
  found_eq : Interface → Option Interface → Bool
  found_eq i none = false
  found_eq i (some j) = Interface.eq d i j

  -- Every interface of the first computer has an equal one of that name in the second.
  unfoldable pub interfaces_eq : Dict String Interface → Dict String Interface → Bool
  unfolding found_eq
  interfaces_eq [] bs = true
  interfaces_eq ((k, i) ∷ rest) bs = found_eq i (Dict.find k bs) && interfaces_eq rest bs

  unfoldable pub eq : Computer → Computer → Bool
  unfolding interfaces_eq
  eq a b =
      a.name == b.name
      && a.os == b.os
      && Memory.eq a.memory b.memory
      && Memory.eq a.disk b.disk
      && nat_beq a.cores b.cores
      && interfaces_eq a.interfaces b.interfaces

  unfoldable pub ne : Computer → Computer → Bool
  ne a b = not (eq a b)
