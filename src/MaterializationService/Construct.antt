-- ===== src/MaterializationService/Construct.antt =====
-- The handler construct (core/materialization-service.cxx), and the routes of the service. The state is
-- that of the service, of the database and of the hosts, to which requests are sent.
use marinatb.Common.{
  ℕ, String, Option, none, some, List, [], ◌∷◌, Result, ok, err, Exception, out_of_range, or_throw,
  string_eq, nat_eq, ◌==◌, if◌then◌else◌,
}
use marinatb.Common
use marinatb.Common.Dict
use marinatb.Common.Dict.{Dict}
use marinatb.Platform.{JsonLib, JsonText, UuidLib, Inet, PqLib, Double, Pipes, Std}
use marinatb.Ident.{Uuid}
use marinatb.Ip.{IpV4Address}
use marinatb.Blueprint.Interface.{Interface}
use marinatb.Blueprint.Network.{Network}
use marinatb.Blueprint.Computer.{Computer}
use marinatb.Blueprint.Store.{Blueprint}
use marinatb.Blueprint.Graph.{connected_computers}
use marinatb.Topo.Host
use marinatb.Embed.Load.{HostEmbedding}
use marinatb.Embed.Chart.{of_topology}
use marinatb.Embed.Algorithm.{embed}
use marinatb.Json.Object.{Supply, sub, object}
use marinatb.Json.Parts.{of_computer}
use marinatb.Json.Wholes.{of_blueprint}
use marinatb.Materialize.Addresses.{set_addresses}
use marinatb.Materialize.Construct.{Materialization, fresh, mz_get}
use marinatb.Database.Store.{
  Query, ◌>>=◌, lift, fetch_blueprint, fetch_hw_topo, new_vxlan_vni, save_materialization,
}
use marinatb.Http.{Handler, Route, json_in, post_method}
use marinatb.BlueprintService.{with_request, reply, caught, good, project_and_name}
use marinatb.MaterializationService.Info.{of_info}
use marinatb.MaterializationService.{destruct, info, list, topo, status}

-- `mzm`, and what the database and the hosts hold.
pub record Service (S : Type 0) : Type 0 where
  pub mzm : Dict Uuid Materialization
  pub world : S

abbrev pub with_vni : Uuid → ℕ → Materialization → Materialization
with_vni n vni mzn = record mzn {
  networks = Dict.insert_or_assign n (record { vni = vni }) mzn.networks;
}

-- srv.onPost(path, jsonIn(f))
abbrev pub posted : {J S : Type 0} → String → Handler J S → Route J S
posted path f = record { f = json_in f; method = post_method; path = path }

module _ {S : Type 0} where
  abbrev pub moved : {A : Type 0} → Service S → Result A × S → Result A × Service S
  moved s (r, w) = (r, record s { world = w })

  abbrev pub on_world : {A : Type 0} → Query S A → Query (Service S) A
  on_world f s = moved s (f s.world)

  -- mzm.get(id), which makes an entry where there is none
  unfoldable pub obtain : Uuid → Query (Service S) (Unit {0})
  obtain id s = (ok tt, record s { mzm = Dict.emplace id fresh s.mzm })

  -- mzn.networks[n].vni = vni
  unfoldable pub note_vni : Uuid → Uuid → ℕ → Query (Service S) (Unit {0})
  note_vni id n vni s = (ok tt, record s { mzm = Dict.update id (with_vni n vni) s.mzm })

-- A write to the interface that getInterfaceByMac finds, which the blueprint shares.
unfoldable pub write_first : String → IpV4Address → Dict String Interface → Dict String Interface
write_first mac a [] = []
write_first mac a ((k, i) ∷ m) =
    let rest = write_first mac a m in
    if i.mac == mac then (k, record i { einfo = a }) ∷ m else (k, i) ∷ rest

unfoldable pub write_addresses : List (Computer × Interface) → Blueprint → Blueprint
write_addresses [] bp = bp
write_addresses ((c, i) ∷ writes) bp = write_addresses writes (record bp {
  computers =
      Dict.update c.id
        (λ (x : Computer). record x { interfaces = write_first i.mac i.einfo x.interfaces })
        bp.computers;
})

-- A machine of a host is a computer of the blueprint, with what was written to it since.
abbrev pub current : Computer → Option Computer → Computer
current c none = c
current c (some written) = written

module _ {J : Type 0} (l : JsonLib J) (u : UuidLib) (mzn : Materialization) (bp : Blueprint) where
  -- host_mz_info
  unfoldable pub host_messages : Dict Uuid Computer → Result (List J)
  host_messages [] = ok []
  host_messages ((k, c) ∷ ms) = elim (Dict.find k mzn.machines) [
    | none ↦ err out_of_range
    | some z ↦
        (Common.◌>>=◌ (host_messages ms) (λ rest. ok (
          object l (
            ("computer", of_computer l u (current c (Dict.find c.id bp.computers)))
            ∷ ("mz-info", of_info l z)
            ∷ [])
          ∷ rest)))
  ]

-- The requests to one host, in order; the replies are not waited for.
unfoldable pub send_messages : {J S : Type 0} → (String → J → S → S) → String → List J → S → S
send_messages send host [] s = s
send_messages send host (j ∷ js) s = send_messages send host js (send host j s)

module _ {J F S : Type 0} (t : JsonText J) (l : JsonLib J) (u : UuidLib) (o : Inet) (q : PqLib S)
    (draw : Supply) (d : Double F) (p : Pipes F) (st : Std) (stoul : String → Result ℕ) where
  -- The loop over the networks of the blueprint; the blueprint is returned as it is written.
  unfoldable pub assign_networks :
      Uuid → Blueprint → Dict Uuid Network → Query (Service S) Blueprint
  assign_networks id bp [] = lift (ok bp)
  assign_networks id bp ((_, n) ∷ ns) = do
    vni ← on_world (new_vxlan_vni t l u o q stoul (u.unparse n.id))
    _ ← note_vni id n.id vni
    members ← lift (connected_computers p bp n)
    assign_networks id (write_addresses (set_addresses o n.ipv4space members) bp) ns

  module _ (send : String → J → S → S) where
    -- The loop over the hosts.
    unfoldable pub reach_hosts :
        Materialization → Blueprint → Dict Uuid HostEmbedding → Query (Service S) (Unit {0})
    reach_hosts mzn bp [] = lift (ok tt)
    reach_hosts mzn bp ((_, he) ∷ hs) = do
      messages ← lift (host_messages l u mzn bp he.machines)
      _ ← on_world (λ w. (ok tt, send_messages send (Host.name he.host) messages w))
      reach_hosts mzn bp hs

    unfoldable pub reach_known :
        Uuid → Blueprint → Dict Uuid HostEmbedding → Query (Service S) (Unit {0})
    reach_known id bp hs s = reach_hosts (mz_get id s.mzm) bp hs s

    unfoldable pub build_up : String → String → Query (Service S) String
    build_up project bpid = do
      bp ← on_world (fetch_blueprint t l u o q (sub draw 0) project bpid)
      _ ← obtain bp.id
      topo ← on_world (fetch_hw_topo t l u o q (sub draw 1))
      embedding ← lift (embed d p st bp (of_topology topo) topo)
      written ← assign_networks bp.id bp bp.networks
      _ ← reach_known bp.id written embedding.hmap
      on_world (save_materialization t l u o q project bpid (of_blueprint l u written))

    unfoldable pub construct : Handler J (Service S)
    construct j = with_request (project_and_name l j) λ (project, bpid) s.
        reply (λ id. good (l.set j "action" (l.of_string "constructed"))) caught
          (build_up project bpid s)

    -- A handler that leaves mzm alone.
    abbrev pub apart : Handler J S → Handler J (Service S)
    apart f j = on_world (f j)

    unfoldable pub routes : List (Route J (Service S))
    routes =
        posted "/construct" construct
        ∷ posted "/destruct" (apart (destruct t l u o q draw send))
        ∷ posted "/info" (apart (info t l u o q draw))
        ∷ posted "/list" (apart (list t l u o q draw))
        ∷ posted "/topo" (apart (topo t l u o q draw))
        ∷ posted "/status" (apart (status t l u o q draw))
        ∷ []
