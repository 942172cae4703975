-- ===== src/HostControl/Unlaunched.antt =====
-- The format call of createNetworkBridge, and construct (core/host-control.cxx).
use Prim.Native.String.{◌++◌}
use marinatb.Common.{
  String, any, List, [], ◌∷◌, ◌≡◌, ◌≢◌, refl, Result, ok, err, runtime_error, string_eq, nat_eq,
}
use marinatb.Common.Dict.{Dict}
use marinatb.Platform.{Pipes, UuidLib, Fmt, FmtLaws, Inet, JsonLib}
use marinatb.Ident.{Uuid}
use marinatb.Blueprint.Network.{Network}
use marinatb.Blueprint.Store.{Blueprint}
use marinatb.Json.Object.{Supply}
use marinatb.Json.Wholes.{to_blueprint}
use marinatb.Http.{Response, ok_status}
use marinatb.HostControl.Command.{
  add_vxlan, Vm, start_qemu, add_bridge, remove_dir, make_dir, Event, ran, wrote_blueprint,
}
use marinatb.HostControl.Shell.{must, Done, Machine, Replies}
use marinatb.HostControl.Guest.{xpdir}
use marinatb.HostControl.Launch.{
  create_bridge, create_network_bridge, launch_all_networks, launch_networks, launch_computers,
  init_xp_dir,
}
use marinatb.HostControl.Rules.{
  Log, Ended, Triple, Never, silent, thrown, stopped, returned, chain, noted, attempted, required,
  Ended-either,
}
use marinatb.HostControl.Service.{materialize, construct, finished, ending, ended, caught, set_live}

-- The machines that were started, the last first.
unfoldable pub started : List Event → List Vm
started [] = []
started (ran (start_qemu vm) n ∷ l) = vm ∷ started l
started (_ ∷ l) = started l

abbrev Started : List Vm → Log
Started vms l = started l ≡ vms

not_finished : {J : Type 0} (r : Result (Response J)) → ended r ≢ finished
not_finished (ok r) e = cc
not_finished (err t) e = cc

-- A thread that ends by an exception.
Ended-Started :
    {J : Type 0} (vms : List Vm) (r : Result Done × Machine)
    → Ended Never (Started vms) r
    → (ending {J = J} r.0 ≢ finished) × (started r.1.log ≡ vms)
unfolding ending
Ended-Started vms (ok a, s) h = absurd h
Ended-Started vms (err e, s) h = (not_finished (caught e), h)

module _ {F : Type 0} (p : Pipes F) (fmt : Fmt) (laws : FmtLaws fmt) (reply : Replies)
    (remote_addr : String) where
  create_network_bridge-throws :
      (vms : List Vm) (n : Network)
      → Triple (Started vms) (create_network_bridge p fmt reply remote_addr n) Never (Started vms)
  unfolding create_network_bridge started any
  create_network_bridge-throws vms n =
      chain {Q = Started vms} _ _
        (silent (create_bridge n.id) (λ s h. Ended-either _ (create_bridge n.id s) h))
        (λ net_id.
          chain {Q = Started vms} _ _
            (required reply (add_bridge net_id) (λ l q h. h) (λ l h. h) (λ l n h. h))
            (λ _.
              thrown (fmt.named ("id" ∷ "vxid" ∷ "ip" ∷ "vni" ∷ []) ("id" ∷ "vxid" ∷ "ip" ∷ []))
                runtime_error (λ _. must reply (add_vxlan net_id remote_addr))
                (laws.named-lacks _ _ refl)))

  launch_networks-throws :
      (vms : List Vm) (bp : Blueprint)
      → bp.networks ≢ []
      → Triple (Started vms) (launch_networks p fmt reply remote_addr bp) Never (Started vms)
  unfolding launch_networks launch_all_networks
  launch_networks-throws vms bp ne = cases bp.networks ne
    where
      cases :
          (ns : Dict Uuid Network)
          → ns ≢ []
          → Triple
              (Started vms)
              (launch_all_networks p fmt reply remote_addr bp ns)
              Never
              (Started vms)
      cases [] q = absurd (q refl)
      cases ((k, n) ∷ ns) q = stopped _ _ (create_network_bridge-throws vms n)

  module _ {J : Type 0} (l : JsonLib J) (u : UuidLib) (o : Inet) (draw : Supply) where
    launches_nothing :
        (vms : List Vm) (j : J) (bp : Blueprint)
        → to_blueprint l u o draw j ≡ ok bp
        → bp.networks ≢ []
        → Triple
            (Started vms)
            (materialize l u o p fmt reply remote_addr draw j)
            Never
            (Started vms)
    unfolding materialize init_xp_dir started
    launches_nothing vms j bp e ne = returned (to_blueprint l u o draw j) bp _ e (
        chain {Q = Started vms} _ _ (silent (set_live bp) (λ s h. h)) (λ _.
          chain {Q = Started vms} _ _
            (chain {Q = Started vms} _ _
              (attempted reply (remove_dir (xpdir u bp)) (λ l q h. h) (λ l n h. h))
              (λ _.
                chain {Q = Started vms} _ _
                  (required reply (make_dir (xpdir u bp)) (λ l q h. h) (λ l h. h) (λ l n h. h))
                  (λ _. noted reply (wrote_blueprint (xpdir u bp ++ "/blueprint") bp) (λ l h. h))))
            (λ _. stopped _ (λ _. launch_computers u reply bp) (launch_networks-throws vms bp ne))))

    -- construct replies OK to a blueprint with a network, and its thread ends by an exception and
    -- starts no machine: the format call of createNetworkBridge lacks an argument.
    pub construct-launches_nothing :
        (j : J) (bp : Blueprint) (s : Machine)
        → to_blueprint l u o draw j ≡ ok bp
        → bp.networks ≢ []
        → let r = construct l u o p fmt reply remote_addr draw j s in
          (r.0.status ≡ ok_status) × (r.1 ≢ finished) × (started r.2.log ≡ started s.log)
    unfolding construct
    construct-launches_nothing j bp s e ne =
        let h = (launches_nothing (started s.log) j bp e ne).ends s refl in
        let r =
          Ended-Started {J = J} (started s.log) (materialize l u o p fmt reply remote_addr draw j s)
            h in
        (refl, r.0, r.1)
