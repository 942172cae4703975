-- ===== src/MaterializationService.antt =====
-- The handlers of the materialization service but construct (core/materialization-service.cxx). The
-- state is that of the database and of the hosts, to which requests are sent.
use marinatb.Common.{ℕ, String, List, [], ◌∷◌, map, Result, ok, err, Exception, string_eq, nat_eq}
use marinatb.Common.Dict.{Dict}
use marinatb.Platform.{JsonLib, JsonText, UuidLib, Inet, PqLib}
use marinatb.Ident.{Uuid}
use marinatb.Blueprint.Network.{Network}
use marinatb.Blueprint.Store.{Blueprint}
use marinatb.Topo.Testbed.{TestbedTopology}
use marinatb.Json.Object.{Supply, sub, object}
use marinatb.Json.Wholes.{of_blueprint, of_topology, to_topology}
use marinatb.Materialize.Construct.{destruct_hosts}
use marinatb.Database.Store.{
  Query, ◌>>=◌, lift, fetch_materialization, fetch_materializations, delete_materialization,
  fetch_hw_topo, set_hw_topo, free_vxlan_vni,
}
use marinatb.Http.{Response, Handler}
use marinatb.BlueprintService.{
  with_request, reply, caught, good, about, project_and_name, string_at,
}
pub mod Construct
pub mod Same
pub mod Silent
pub mod Serve
pub mod Unsent
pub mod Info
mod Examples

module _ {J S : Type 0} (t : JsonText J) (l : JsonLib J) (u : UuidLib) (o : Inet) (q : PqLib S)
    (draw : Supply) where
  unfoldable pub info : Handler J S
  info j = with_request (project_and_name l j) λ (project, bpid) s.
      reply (λ mzn. good (of_blueprint l u mzn)) caught
        (fetch_materialization t l u o q draw project bpid s)

  unfoldable pub free_vnis : Dict Uuid Network → Query S (Unit {0})
  free_vnis [] = lift (ok tt)
  free_vnis ((_, n) ∷ rest) = do _ ← free_vxlan_vni t l u o q (u.unparse n.id); free_vnis rest

  abbrev pub keys_json : {A : Type 0} → Dict Uuid A → J
  keys_json m = l.of_array (map (λ e. l.of_string (u.unparse e.0)) m)

  -- What a host is sent: the ids of the computers, as "hosts", and of the networks.
  unfoldable pub destruct_message : Blueprint → J
  destruct_message bp =
      object l (("hosts", keys_json bp.computers) ∷ ("nets", keys_json bp.networks) ∷ [])

  -- Requests to hosts, whose replies are not waited for. The name of the host is the argument.
  unfoldable pub send_all : (String → J → S → S) → J → List String → S → S
  send_all send message [] s = s
  send_all send message (h ∷ hosts) s = send_all send message hosts (send h message s)

  -- The loop over the hosts that have computers of the blueprint.
  unfoldable pub notify : (String → J → S → S) → Blueprint → TestbedTopology → S → S
  notify send bp topo s = send_all send (destruct_message bp) (destruct_hosts bp topo) s

  -- The work of destruct, with the loop over the hosts as an argument.
  unfoldable pub tear_down :
      (Blueprint → TestbedTopology → S → S) → String → String → Query S (Unit {0})
  tear_down notified project bpid = do
    bp ← fetch_materialization t l u o q (sub draw 0) project bpid
    topo ← fetch_hw_topo t l u o q (sub draw 1)
    _ ← free_vnis bp.networks
    _ ← λ s. (ok tt, notified bp topo s)
    _ ← delete_materialization t l u o q project bpid
    set_hw_topo t l u o q (of_topology l u topo)

  unfoldable pub destruct_by : (Blueprint → TestbedTopology → S → S) → Handler J S
  destruct_by notified j = with_request (project_and_name l j) λ (project, bpid) s.
      reply (λ x. good (about l project bpid "action" (l.of_string "deconstructed"))) caught
        (tear_down notified project bpid s)

  unfoldable pub destruct : (String → J → S → S) → Handler J S
  destruct send = destruct_by (notify send)

  unfoldable pub list : Handler J S
  list j = with_request (string_at l j "project") λ project s.
      reply
        (λ bps. good (
          object l (
            ("status", l.of_string "ok")
            ∷ ("materializations", l.of_array (map (of_blueprint l u) bps))
            ∷ [])))
        caught (fetch_materializations t l u o q draw project s)

  unfoldable pub store_topology : J → Query S (Unit {0})
  store_topology j = do
    topo ← lift (to_topology l u o draw j)
    set_hw_topo t l u o q (of_topology l u topo)

  unfoldable pub topo : Handler J S
  topo j s =
      reply
        (λ x. good (object l (("status", l.of_string "ok") ∷ ("action", l.of_string "topo") ∷ [])))
        caught (store_topology j s)

  unfoldable pub status : Handler J S
  status j s =
      reply
        (λ topology.
          good (object l (("status", l.of_string "ok") ∷ ("topo", of_topology l u topology) ∷ [])))
        caught (fetch_hw_topo t l u o q draw s)
