-- ===== src/Sample/Site.antt =====
-- A site with one switch and two hosts, and a blueprint with one network and two computers.
use marinatb.Common.{ℕ, String, [], ◌∷◌}
use marinatb.Units.Memory.{gb}
use marinatb.Units.Bandwidth.{gbps, mbps}
use marinatb.Units.Latency.{ms}
use marinatb.Ip.{unset}
use marinatb.Ident.{Uuid, of_id, of_mac}
use marinatb.Blueprint.Interface.{Interface}
use marinatb.Blueprint.Network.{Network}
use marinatb.Blueprint.Computer.{Computer}
use marinatb.Blueprint.Store.{Blueprint}
use marinatb.Topo.Switch.{Switch}
use marinatb.Topo.Host.{Host}
use marinatb.Topo.Testbed.{TestbedTopology}

abbrev pub interface : String → String → ℕ → Interface
interface name mac gigabits = record {
  name = name;
  mac = mac;
  latency = record { size = 0; unit = ms };
  einfo = unset;
  capacity = record { size = gigabits; unit = gbps };
}

-- A computer with a control interface and one more.
abbrev pub machine : String → Uuid → ℕ → String → String → Computer
machine name id cores cifx_mac mac = record {
  name = name;
  os = "ubuntu-server-15.10";
  memory = record { size = 4; unit = gb };
  disk = record { size = 10; unit = gb };
  cores = cores;
  id = id;
  interfaces = ("cifx", interface "cifx" cifx_mac 1) ∷ ("eth0", interface "eth0" mac 1) ∷ [];
}

abbrev pub node_a : Computer
node_a = machine "a" 11 2 "a0" "a1"

abbrev pub node_b : Computer
node_b = machine "b" 12 2 "b0" "b1"

abbrev pub lan : Network
lan = record {
  name = "lan";
  bandwidth = record { size = 100; unit = mbps };
  latency = record { size = 0; unit = ms };
  ipv4space = record { addr = 2570; mask = 16 };
  id = 10;
}

abbrev pub pair_blueprint : Blueprint
pair_blueprint = record {
  name = "pair";
  id = 1;
  computers = (11, node_a) ∷ (12, node_b) ∷ [];
  networks = (10, lan) ∷ [];
  links =
      record { first = of_mac 11 "a1"; second = of_id 10 }
      ∷ record { first = of_mac 12 "b1"; second = of_id 10 }
      ∷ [];
}

abbrev pub server : String → Uuid → ℕ → String → Host
server name id cores mac = record {
  host_comp = record {
    name = name;
    os = "ubuntu-server-15.10";
    memory = record { size = 64; unit = gb };
    disk = record { size = 900; unit = gb };
    cores = cores;
    id = id;
    interfaces = ("ifx", interface "ifx" mac 10) ∷ [];
  };
  machines = [];
}

abbrev pub host_x : Host
host_x = server "x" 21 3 "x0"

abbrev pub host_y : Host
host_y = server "y" 22 3 "y0"

abbrev pub leaf : Switch
leaf = record {
  id = 31;
  name = "leaf";
  backplane = record { size = 10; unit = gbps };
  networks = [];
}

abbrev pub small_site : TestbedTopology
small_site = record {
  name = "site";
  switches = (31, leaf) ∷ [];
  hosts = (21, host_x) ∷ (22, host_y) ∷ [];
  links =
      record {
        first = of_mac 21 "x0";
        second = of_id 31;
        capacity = record { size = 10; unit = gbps };
      }
      ∷ record {
        first = of_mac 22 "y0";
        second = of_id 31;
        capacity = record { size = 10; unit = gbps };
      }
      ∷ [];
}

abbrev spine : Switch
spine = record leaf { id = 32; name = "spine" }

-- One host at two switches.
abbrev pub shared_site : TestbedTopology
shared_site = record {
  name = "shared";
  switches = (31, leaf) ∷ (32, spine) ∷ [];
  hosts = (21, host_x) ∷ [];
  links =
      record {
        first = of_mac 21 "x0";
        second = of_id 31;
        capacity = record { size = 10; unit = gbps };
      }
      ∷ record {
        first = of_mac 21 "x0";
        second = of_id 32;
        capacity = record { size = 10; unit = gbps };
      }
      ∷ [];
}
