-- ===== src/Materialize/Construct.antt =====
-- construct and destruct (core/materialization-service.cxx), between the reads of the database and the
-- replies. The objects of a blueprint are shared, so that a request names the computer that it sends.
use marinatb.Common.{
  String, some, List, [], ◌∷◌, ◌++◌, Result, ok, err, out_of_range, or_throw, ◌>>=◌, nat_eq, ℕ, any,
  ◌==◌, string_eq, if◌then◌else◌,
}
use marinatb.Common.Dict
use marinatb.Common.Dict.{Dict}
use marinatb.Platform.{Double, Pipes, Std, Inet}
use marinatb.Ident.{Uuid}
use marinatb.Ip.{IpV4Address}
use marinatb.Blueprint.Interface.{Interface}
use marinatb.Blueprint.Network.{Network}
use marinatb.Blueprint.Computer.{Computer}
use marinatb.Blueprint.Store.{Blueprint}
use marinatb.Blueprint.Graph.{connected_computers}
use marinatb.Topo.Host
use marinatb.Topo.Testbed.{TestbedTopology}
use marinatb.Embed.Load.{HostEmbedding}
use marinatb.Embed.Chart.{EChart, of_topology}
use marinatb.Embed.Algorithm.{embed}
use marinatb.Materialize.Addresses.{set_addresses}

pub data LaunchState : Type 0 where
  none queued launching up : LaunchState

pub record ComputerMzInfo : Type 0 where
  pub launch_state : LaunchState
  pub interfaces : Dict String IpV4Address

pub record NetworkMzInfo : Type 0 where
  pub vni : ℕ

pub record Materialization : Type 0 where
  pub machines : Dict Uuid ComputerMzInfo
  pub networks : Dict Uuid NetworkMzInfo

-- An entry of MzMap before its first use.
abbrev pub fresh : Materialization
fresh = record { machines = []; networks = [] }

-- data_[id], which makes an entry where there is none.
unfoldable pub mz_get : Uuid → Dict Uuid Materialization → Materialization
mz_get id data_ = elim (Dict.find id data_) [ some mzn ↦ mzn | _ ↦ fresh ]

-- A POST to /construct at a host, with the computer and what the service knows of it.
pub record Request : Type 0 where
  pub host : String
  pub computer : Uuid
  pub mz_info : ComputerMzInfo

-- What a run of construct leaves: its own state, that of the database and the writes of addresses.
pub record Constructed (S : Type 0) : Type 0 where
  pub embedding : EChart
  pub mzn : Materialization
  pub database : S
  pub writes : List (Computer × Interface)

-- The loop over the machines of one host.
unfoldable pub machine_requests :
    Materialization → String → Dict Uuid Computer → Result (List Request)
machine_requests mzn host [] = ok []
machine_requests mzn host ((k, c) ∷ ms) = do
  z ← or_throw (Dict.find k mzn.machines) out_of_range
  rest ← machine_requests mzn host ms
  ok (record { host = host; computer = c.id; mz_info = z } ∷ rest)

abbrev pub sent_then :
    Result (List Request) → List Request × Result (Unit {0}) → List Request × Result (Unit {0})
sent_then (err e) rest = ([], err e)
sent_then (ok here) rest = (here ++ rest.0, rest.1)

-- The loop over the hosts: what was sent, to the hosts before the one that it throws at where it throws.
unfoldable pub host_requests :
    Materialization → Dict Uuid HostEmbedding → List Request × Result (Unit {0})
host_requests mzn [] = ([], ok tt)
host_requests mzn ((_, he) ∷ hs) =
    let rest = host_requests mzn hs in
    sent_then (machine_requests mzn (Host.name he.host) he.machines) rest

-- `new_vni` is DB::newVxlanVni.
module _ {F S : Type 0} (p : Pipes F) (o : Inet) (new_vni : Uuid → S → Result (ℕ × S)) where
  -- The loop over the networks of the blueprint.
  unfoldable pub set_networks :
      Blueprint
      → Dict Uuid Network
      → Materialization
      → S
      → Result (Materialization × S × List (Computer × Interface))
  set_networks bp [] mzn s = ok (mzn, s, [])
  set_networks bp ((_, n) ∷ ns) mzn s = do
    (vni, s') ← new_vni n.id s
    members ← connected_computers p bp n
    let info : NetworkMzInfo = record { vni = vni }
    (mzn', s'', writes) ←
        set_networks bp ns (record mzn { networks = Dict.insert_or_assign n.id info mzn.networks })
          s'
    ok (mzn', s'', set_addresses o n.ipv4space members ++ writes)

module _ {F S : Type 0} (d : Double F) (p : Pipes F) (st : Std) (o : Inet)
    (new_vni : Uuid → S → Result (ℕ × S)) where
  -- What comes before the requests.
  unfoldable pub prepare :
      Blueprint → TestbedTopology → Materialization → S → Result (Constructed S)
  prepare bp topo mzn s = do
    embedding ← embed d p st bp (of_topology topo) topo
    (mzn', s', writes) ← set_networks p o new_vni bp bp.networks mzn s
    ok (record { embedding = embedding; mzn = mzn'; database = s'; writes = writes })

  abbrev pub call_out : Result (Constructed S) → List Request × Result (Constructed S)
  call_out (err e) = ([], err e)
  call_out (ok r) =
      let called = host_requests r.mzn r.embedding.hmap in (called.0, called.1 >>= λ _. ok r)

  -- The requests that are sent, and how the rest ends.
  unfoldable pub construct :
      Blueprint → TestbedTopology → Materialization → S → List Request × Result (Constructed S)
  unfolding prepare
  construct bp topo mzn s = call_out (prepare bp topo mzn s)

-- The hosts to which destruct sends a command: an unordered_set of names, here in the order of their
-- insertion. The chart that it reads is that of the bare topology.
unfoldable pub hosts_with : Uuid → Dict Uuid HostEmbedding → List String → List String
hosts_with id [] names = names
hosts_with id ((_, he) ∷ hs) names =
    let name = Host.name he.host in
    let more = if any (◌==◌ name) names then names else names ++ name ∷ [] in
    hosts_with id hs (if Dict.contains id he.machines then more else names)

unfoldable pub all_hosts_with :
    Dict Uuid Computer → Dict Uuid HostEmbedding → List String → List String
unfolding hosts_with
all_hosts_with [] hmap names = names
all_hosts_with ((_, c) ∷ cs) hmap names = all_hosts_with cs hmap (hosts_with c.id hmap names)

unfoldable pub destruct_hosts : Blueprint → TestbedTopology → List String
unfolding all_hosts_with
destruct_hosts bp topo = all_hosts_with bp.computers (of_topology topo).hmap []
