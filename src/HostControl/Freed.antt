-- ===== src/HostControl/Freed.antt =====
-- What terminateComputers, terminateNetworks and destruct give back (core/host-control.cxx).
use marinatb.Common.{
  ◌≢◌, Exception, out_of_range, runtime_error, invalid_argument, domain_error,
  delete_active_blueprint, thrown_text, undefined, ℕ, String, List, [], ◌∷◌, ◌≡◌, refl, ap, sym,
  ◌∙◌, subst, none, All, All-map, Result, ok, err, string_eq, nat_eq, ok-injective, Eq, ==_refl,
  arith, Bool-cases, inl, inr,
}
use marinatb.Common.Dict
use marinatb.Common.Dict.{Dict}
use marinatb.Platform.{Pipes, UuidLib, Fmt, Inet, JsonLib}
use marinatb.Ident.{Uuid}
use marinatb.Blueprint.Interface.{Interface}
use marinatb.Blueprint.Network.{Network}
use marinatb.Blueprint.Computer.{Computer}
use marinatb.Blueprint.Store.{Blueprint}
use marinatb.Blueprint.Graph.{connected_computers}
use marinatb.Materialize.Ids
use marinatb.Materialize.Ids.{Guarded}
use marinatb.Materialize.IdLaws.{get_cases}
use marinatb.HostControl.Command.{remove_dir, kill_machine, del_bridge}
use marinatb.HostControl.Shell.{Machine, Done, lift, Replies, must}
use marinatb.HostControl.Guest.{xpdir}
use marinatb.HostControl.Launch.{get_bridge, control_mac}
use marinatb.HostControl.Terminate.{
  erase_bridge, erase_vhost, erase_ports, erase_qk, terminate_all_networks, terminate_networks,
  terminate_all, terminate_computers,
}
use marinatb.Json.Object.{Supply}
use marinatb.Json.Wholes.{to_blueprint}
use marinatb.Http.{Response, ok_status, bad_request, unexpected_failure}
use marinatb.HostControl.Service.{destruct, dematerialize, caught, answer}
use marinatb.HostControl.Terminate.{del_xp_dir}
use marinatb.HostControl.Rules.{continue-ok, attempt-ok, must-ok}

-- A key has no id.
abbrev pub Unknown : {K : Type 0} ⦃e : Eq K⦄ → K → Guarded K → Type 0
Unknown k g = Dict.find k g.ids.m ≡ none

module _ {K : Type 0} ⦃e : Eq K⦄ where
  -- What an erase that returns has done.
  erase_call-frees :
      (k : K) (g : Guarded K) {x : Done}
      → (Ids.erase_call k g).0 ≡ ok x
      → Unknown k (Ids.erase_call k g).1
        × ((i : K) → Unknown i g → Unknown i (Ids.erase_call k g).1)
  unfolding Ids.locked Ids.erase
  erase_call-frees k g h = elim (Bool-cases g.lk_) [
    | inl held ↦ cc
    | inr free ↦ rw free (
      rw (Dict.find-erase k k g.ids.m, ==_refl k) refl,
      λ i u. ground (arith, Dict.find-erase k i g.ids.m, u),
    )
  ]

  -- A get that returns leaves the map as it is.
  get-keeps : (k : K) (g : Guarded K) {n : ℕ} → (Ids.get k g).0 ≡ ok n → (Ids.get k g).1 ≡ g
  unfolding Ids.get
  get-keeps k g {n = n} h = elim (get_cases k g) [
    | inl held ↦ ap (λ x. x.1) held
    | inr (inl (missing, q)) ↦
        let bad : err out_of_range ≡ ok n = ap (λ x. x.0) (sym missing) ∙ h in cc
    | inr (inr (i, present, q)) ↦ ap (λ x. x.1) present
  ]

-- The keys without an id in the first have none in the second.
abbrev Fewer : Machine → Machine → Type 0
Fewer s t =
    ((k : Uuid) → Unknown k s.bridge_id → Unknown k t.bridge_id)
    × ((k : String) → Unknown k s.qk_id → Unknown k t.qk_id)

-- No network of the blueprint has a bridge number in the second, no control interface of its
-- computers has a console number, and nothing else has a number that had none in the first.
abbrev pub Freed : Blueprint → Machine → Machine → Type 0
Freed bp s t =
    All (λ e. Unknown e.1.id t.bridge_id) bp.networks
    × All (λ e. (mac : String) → control_mac e.1 ≡ ok mac → Unknown mac t.qk_id) bp.computers
    × Fewer s t

erase_ports-bridge :
    (ms : List (Computer × Interface)) (s : Machine) {x : Done} {t : Machine}
    → erase_ports ms s ≡ (ok x, t)
    → (t.bridge_id ≡ s.bridge_id) × (t.qk_id ≡ s.qk_id)
unfolding erase_ports
erase_ports-bridge [] s h =
    let same = ap (λ (y : Result Done × Machine). y.1) (sym h) in
    (ap (λ (y : Machine). y.bridge_id) same, ap (λ (y : Machine). y.qk_id) same)
erase_ports-bridge ((c, i) ∷ ms) s h =
    let one = continue-ok (erase_vhost i.mac s) _ h in
    let left = ap (λ (y : Result Done × Machine). y.1) (sym one.2) in
    let rest = erase_ports-bridge ms one.1 one.3 in
    (rest.0 ∙ ap (λ (y : Machine). y.bridge_id) left, rest.1 ∙ ap (λ (y : Machine). y.qk_id) left)

module _ {F : Type 0} (p : Pipes F) (reply : Replies) (bp : Blueprint) where
  terminate_all_networks-frees :
      (ns : Dict Uuid Network) (s : Machine) {x : Done} {t : Machine}
      → terminate_all_networks p reply bp ns s ≡ (ok x, t)
      → All (λ e. Unknown e.1.id t.bridge_id) ns
        × ((k : Uuid) → Unknown k s.bridge_id → Unknown k t.bridge_id)
        × (t.qk_id ≡ s.qk_id)
  unfolding terminate_all_networks
  terminate_all_networks-frees [] s h =
      let same = ap (λ (y : Result Done × Machine). y.1) (sym h) in
      (
        tt,
        λ k q. subst (λ (y : Machine). Unknown k y.bridge_id) (sym same) q,
        ap (λ (y : Machine). y.qk_id) same,
      )
  terminate_all_networks-frees ((k, n) ∷ ns) s h =
      let one = continue-ok (get_bridge n.id s) _ h in
      let two = continue-ok (must reply (del_bridge one.0) one.1) _ one.3 in
      let away = continue-ok (erase_bridge n.id two.1) _ two.3 in
      let three = continue-ok (lift (connected_computers p bp n) away.1) _ away.3 in
      let four = continue-ok (erase_ports three.0 three.1) _ three.3 in
      let rest = terminate_all_networks-frees ns four.1 four.3 in
      let got : one.1 ≡ s =
        ap (λ (y : Result ℕ × Machine). y.1) (sym one.2)
        ∙ ap (λ (g : Guarded Uuid). record s { bridge_id = g })
            (get-keeps n.id s.bridge_id (ap (λ (y : Result ℕ × Machine). y.0) one.2)) in
      let kept = must-ok reply (del_bridge one.0) one.1 two.2 in
      let erased : three.1 ≡ record two.1 { bridge_id = (Ids.erase_call n.id two.1.bridge_id).1 } =
        ap (λ (y : Result (List (Computer × Interface)) × Machine). y.1) (sym three.2)
        ∙ ap (λ (y : Result Done × Machine). y.1) (sym away.2) in
      let frees =
        erase_call-frees n.id two.1.bridge_id (ap (λ (y : Result Done × Machine). y.0) away.2) in
      let ports = erase_ports-bridge three.0 three.1 four.2 in
      let bridges : four.1.bridge_id ≡ (Ids.erase_call n.id two.1.bridge_id).1 =
        ports.0 ∙ ap (λ (y : Machine). y.bridge_id) erased in
      let before : two.1.bridge_id ≡ s.bridge_id =
        ap (λ (y : Machine). y.bridge_id) kept ∙ ap (λ (y : Machine). y.bridge_id) got in
      let qks : four.1.qk_id ≡ s.qk_id =
        ports.1
        ∙ ap (λ (y : Machine). y.qk_id) erased
        ∙ ap (λ (y : Machine). y.qk_id) (kept ∙ got) in
      (
        (rest.1 n.id (subst (Unknown n.id) (sym bridges) frees.0), rest.0),
        λ i q.
            rest.1 i
              (subst (Unknown i) (sym bridges) (frees.1 i (subst (Unknown i) (sym before) q))),
        rest.2 ∙ qks,
      )

module _ (u : UuidLib) (reply : Replies) (bp : Blueprint) where
  terminate_all-frees :
      (cs : Dict Uuid Computer) (s : Machine) {x : Done} {t : Machine}
      → terminate_all u reply bp cs s ≡ (ok x, t)
      → All (λ e. (mac : String) → control_mac e.1 ≡ ok mac → Unknown mac t.qk_id) cs
        × ((k : String) → Unknown k s.qk_id → Unknown k t.qk_id)
        × (t.bridge_id ≡ s.bridge_id)
  unfolding terminate_all
  terminate_all-frees [] s h =
      let same = ap (λ (y : Result Done × Machine). y.1) (sym h) in
      (
        tt,
        λ k q. subst (λ (y : Machine). Unknown k y.qk_id) (sym same) q,
        ap (λ (y : Machine). y.bridge_id) same,
      )
  terminate_all-frees ((k, c) ∷ cs) s {t = t} h =
      let one = continue-ok (must reply (kill_machine (xpdir u bp) c.name) s) _ h in
      let two = continue-ok (lift (control_mac c) one.1) _ one.3 in
      let away = continue-ok (erase_qk two.0 two.1) _ two.3 in
      let rest = terminate_all-frees cs away.1 away.3 in
      let erased : away.1 ≡ record two.1 { qk_id = (Ids.erase_call two.0 two.1.qk_id).1 } =
        ap (λ (y : Result Done × Machine). y.1) (sym away.2) in
      let frees =
        erase_call-frees two.0 two.1.qk_id (ap (λ (y : Result Done × Machine). y.0) away.2) in
      let now : away.1.qk_id ≡ (Ids.erase_call two.0 two.1.qk_id).1 =
        ap (λ (y : Machine). y.qk_id) erased in
      let kept = must-ok reply (kill_machine (xpdir u bp) c.name) s one.2 in
      let got : two.1 ≡ one.1 = ap (λ (y : Result String × Machine). y.1) (sym two.2) in
      let known : control_mac c ≡ ok two.0 = ap (λ (y : Result String × Machine). y.0) two.2 in
      let qks : two.1.qk_id ≡ s.qk_id =
        ap (λ (y : Machine). y.qk_id) got ∙ ap (λ (y : Machine). y.qk_id) kept in
      (
        (
          λ mac q.
              subst (λ m. Unknown m t.qk_id) (ok-injective (sym known ∙ q))
                (rest.1 two.0 (subst (Unknown two.0) (sym now) frees.0)),
          rest.0,
        ),
        λ i q. rest.1 i (subst (Unknown i) (sym now) (frees.1 i (subst (Unknown i) (sym qks) q))),
        rest.2
            ∙ ap (λ (y : Machine). y.bridge_id) erased
            ∙ ap (λ (y : Machine). y.bridge_id) got
            ∙ ap (λ (y : Machine). y.bridge_id) kept,
      )

-- A handler of this service answers OK only where nothing was thrown.
caught-status :
    {J : Type 0} (e : Exception) {r : Response J} → caught e ≡ ok r → r.status ≢ ok_status
unfolding caught bad_request unexpected_failure
caught-status out_of_range h s = cc
caught-status runtime_error h s = cc
caught-status invalid_argument h s = cc
caught-status domain_error h s = cc
caught-status delete_active_blueprint h s = cc
caught-status thrown_text h s = cc
caught-status undefined h s = cc

answer-ok :
    {J : Type 0} (x : Result (Response J) × Machine) {r : Response J} {t : Machine}
    → answer x ≡ (ok r, t)
    → r.status ≡ ok_status
    → x ≡ (ok r, t)
answer-ok (ok a, s) h q = h
answer-ok {J = J} (err e, s) h q =
    absurd (caught-status e (ap (λ (y : Result (Response J) × Machine). y.0) h) q)

module _ {J F : Type 0} (l : JsonLib J) (u : UuidLib) (o : Inet) (p : Pipes F) (fmt : Fmt)
    (reply : Replies) (remote_addr : String) (draw : Supply) where
  -- Where destruct answers OK, no network of the blueprint has a bridge number, no control interface of
  -- its computers has a console number, and nothing else has a number that had none before.
  pub destruct-frees :
      (j : J) (bp : Blueprint) (s t : Machine) (r : Response J)
      → to_blueprint l u o draw j ≡ ok bp
      → destruct l u o p fmt reply remote_addr draw j s ≡ (ok r, t)
      → r.status ≡ ok_status
      → Freed bp s t
  unfolding destruct dematerialize terminate_computers terminate_networks del_xp_dir
  destruct-frees j bp s t r e h q =
      let done = answer-ok (dematerialize l u o p fmt reply remote_addr draw j s) h q in
      let zero = continue-ok (lift (to_blueprint l u o draw j) s) _ done in
      let same : zero.0 ≡ bp =
        ok-injective (ap (λ (y : Result Blueprint × Machine). y.0) (sym zero.2) ∙ e) in
      let one = continue-ok (terminate_all u reply zero.0 zero.0.computers zero.1) _ zero.3 in
      let two = continue-ok (terminate_all_networks p reply zero.0 zero.0.networks one.1) _ one.3 in
      let machines = terminate_all-frees u reply zero.0 zero.0.computers zero.1 one.2 in
      let networks = terminate_all_networks-frees p reply zero.0 zero.0.networks one.1 two.2 in
      let start : zero.1 ≡ s = ap (λ (y : Result Blueprint × Machine). y.1) (sym zero.2) in
      let three = continue-ok (del_xp_dir u reply zero.0 two.1) _ two.3 in
      let kept = attempt-ok reply (remove_dir (xpdir u zero.0)) two.1 three.2 in
      let end : three.1 ≡ t = ap (λ (y : Result (Response J) × Machine). y.1) three.3 in
      let qk : (k : String) → Unknown k one.1.qk_id → Unknown k two.1.qk_id =
        λ k x. subst (Unknown k) (sym networks.2) x in
      let freed : Freed zero.0 zero.1 two.1 = (
        networks.0,
        All-map (λ c x mac y. qk mac (x mac y)) zero.0.computers machines.0,
        (λ k x. networks.1 k (subst (Unknown k) (sym machines.2) x), λ k x. qk k (machines.1 k x)),
      ) in
      subst (λ b. Freed b s t) same
        (subst (λ m. Freed zero.0 m t) start
          (subst (Freed zero.0 zero.1) end (subst (Freed zero.0 zero.1) (sym kept) freed)))
