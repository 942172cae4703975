-- ===== src/MaterializationService/Unsent.antt =====
-- What destruct sends to the hosts (core/materialization-service.cxx).
use marinatb.Common.{String, ◌≡◌, refl, ap, fun_ext}
use marinatb.Platform.{JsonLib, JsonText, UuidLib, Inet, PqLib}
use marinatb.Blueprint.Store.{Blueprint}
use marinatb.Topo.Testbed.{TestbedTopology}
use marinatb.Json.Object.{Supply}
use marinatb.Materialize.Commands.{destruct_hosts-none}
use marinatb.MaterializationService.{send_all, notify, destruct, destruct_by}

module _ {J S : Type 0} (t : JsonText J) (l : JsonLib J) (u : UuidLib) (o : Inet) (q : PqLib S)
    (draw : Supply) where
  notify-none :
      (send : String → J → S → S) (bp : Blueprint) (topo : TestbedTopology) (s : S)
      → notify t l u o q draw send bp topo s ≡ s
  unfolding notify send_all
  notify-none send bp topo s = rw (destruct_hosts-none bp topo) refl

  -- destruct sends no request to a host: it replies and leaves behind what it would without the loop
  -- over the hosts, whatever a request does.
  pub destruct-unsent :
      (send : String → J → S → S) (j : J) (s : S)
      → destruct t l u o q draw send j s ≡ destruct_by t l u o q draw (λ bp topo x. x) j s
  unfolding destruct
  destruct-unsent send j s =
      ap (λ (g : Blueprint → TestbedTopology → S → S). destruct_by t l u o q draw g j s)
        (fun_ext (λ bp. fun_ext (λ topo. fun_ext (λ x. notify-none send bp topo x))))
