-- ===== src/Topo/Testbed.antt =====
-- class TestbedTopology: its parts, their creation, lookup, connection and removal.
use marinatb.Common.{
  String, Bool, not, ◌&&◌, ◌||◌, ◌==◌, string_eq, nat_eq, nat_beq, Option, none, some, List, [],
  ◌∷◌, ◌++◌, Result, ok, err, out_of_range, runtime_error, or_throw, ◌>>=◌, find_if, remove_if,
  length,
}
use marinatb.Common.Dict
use marinatb.Common.Dict.{Dict}
use marinatb.Platform.{Double, Inet}
use marinatb.Units.Bandwidth.{Bandwidth}
use marinatb.Ident
use marinatb.Ident.{Uuid, Endpoint, of_id, of_mac}
use marinatb.Blueprint.Interface.{Interface}
use marinatb.Blueprint.Compare.{entries_eq}
use marinatb.Topo.Switch
use marinatb.Topo.Switch.{Switch}
use marinatb.Topo.Host
use marinatb.Topo.Host.{Host}

-- struct TbLink: `endpoints[0]`, `endpoints[1]` and the capacity.
pub record TbLink : Type 0 where
  pub first : Endpoint
  pub second : Endpoint
  pub capacity : Bandwidth

pub record TestbedTopology : Type 0 where
  pub name : String
  pub switches : Dict Uuid Switch
  pub hosts : Dict Uuid Host
  pub links : List TbLink

-- TestbedTopology(string)
unfoldable pub create : String → TestbedTopology
create name = record { name = name; switches = []; hosts = []; links = [] }

-- name(string)
unfoldable pub set_name : TestbedTopology → String → TestbedTopology
set_name t name = record t { name = name }

-- sw(string)
unfoldable pub sw : TestbedTopology → String → Uuid → TestbedTopology × Switch
sw t name fresh =
    let s = Switch.create name fresh in
    (record t { switches = Dict.insert_or_assign s.id s t.switches }, s)

-- host(string)
unfoldable pub host : TestbedTopology → String → Uuid → String → String → TestbedTopology × Host
host t name fresh cifx_mac ifx_mac =
    let h = Host.create name fresh cifx_mac ifx_mac in
    (record t { hosts = Dict.insert_or_assign (Host.id h) h t.hosts }, h)

abbrev pub named_switch : String → Uuid × Switch → Bool
named_switch name (_, s) = s.name == name

abbrev pub named_host : String → Uuid × Host → Bool
named_host name (_, h) = Host.name h == name

unfoldable pub get_sw : TestbedTopology → String → Result Switch
get_sw t name = or_throw (Dict.second (find_if (named_switch name) t.switches)) out_of_range

unfoldable pub get_host : TestbedTopology → String → Result Host
get_host t name = or_throw (Dict.second (find_if (named_host name) t.hosts)) out_of_range

-- connect(Switch, Switch, Bandwidth)
unfoldable pub connect_switches : TestbedTopology → Switch → Switch → Bandwidth → TestbedTopology
connect_switches t a b bw = record t {
  links = t.links ++ record { first = of_id a.id; second = of_id b.id; capacity = bw } ∷ [];
}

-- connect(pair<Host, Interface>, Switch, Bandwidth)
unfoldable pub connect : TestbedTopology → Host × Interface → Switch → Bandwidth → TestbedTopology
connect t (h, i) s bw = record t {
  links =
      t.links
      ++ record { first = of_mac (Host.id h) i.mac; second = of_id s.id; capacity = bw } ∷ [];
}

unfoldable pub touches : Endpoint → TbLink → Bool
touches e l = Ident.eq l.first e || Ident.eq l.second e

unfoldable pub remove_endpoint_link : TestbedTopology → Endpoint → TestbedTopology
unfolding touches
remove_endpoint_link t e = record t { links = remove_if (touches e) t.links }

remove_by_key {ℓ} : {V : Type ℓ} → TestbedTopology → Option (Uuid × V) → Result TestbedTopology
unfolding remove_endpoint_link
remove_by_key t none = err runtime_error
remove_by_key t (some (k, _)) = ok (remove_endpoint_link t (of_id k))

-- removeSw: only the links at the switch are removed.
unfoldable pub remove_sw : TestbedTopology → String → Result TestbedTopology
unfolding remove_by_key
remove_sw t name = remove_by_key t (find_if (named_switch name) t.switches)

-- removeHost: only links are removed here too.
unfoldable pub remove_host : TestbedTopology → String → Result TestbedTopology
unfolding remove_by_key
remove_host t name = remove_by_key t (find_if (named_host name) t.hosts)

-- The loops of `clone`.
clone_hosts : Uuid → (Uuid → String) → Dict Uuid Host → Dict Uuid Host → Dict Uuid Host
clone_hosts fresh macs [] out = out
clone_hosts fresh macs ((k, h) ∷ m) out =
    clone_hosts fresh macs m (Dict.insert_or_assign k (Host.clone h fresh macs) out)

clone_switches :
    Inet → (Uuid → Uuid) → Dict Uuid Switch → Dict Uuid Switch → Result (Dict Uuid Switch)
clone_switches o ids [] out = ok out
clone_switches o ids ((k, s) ∷ m) out = do
  c ← Switch.clone o s (ids k)
  clone_switches o ids m (Dict.insert_or_assign k c out)

-- clone: the links are not copied. `ids` has the new id of each switch.
unfoldable pub clone :
    Inet → TestbedTopology → Uuid → (Uuid → Uuid) → (Uuid → String) → Result TestbedTopology
unfolding clone_hosts clone_switches
clone o t fresh ids macs = do
  switches ← clone_switches o ids t.switches []
  ok (record (create t.name) { hosts = clone_hosts fresh macs t.hosts []; switches = switches })

module _ {F : Type 0} (d : Double F) where
  -- operator ==: the links are not compared.
  unfoldable pub eq : TestbedTopology → TestbedTopology → Bool
  eq a b =
      a.name == b.name
      && nat_beq (length a.switches) (length b.switches)
      && entries_eq Switch.eq a.switches b.switches
      && nat_beq (length a.hosts) (length b.hosts)
      && entries_eq (Host.eq d) a.hosts b.hosts

  unfoldable pub ne : TestbedTopology → TestbedTopology → Bool
  ne a b = not (eq a b)
