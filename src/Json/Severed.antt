-- ===== src/Json/Severed.antt =====
-- What reading a topology does to its links (core/topo.cxx), and so to embedding (core/embed.cxx).
use marinatb.Common.{
  ℕ, suc, ◌≡◌, ◌≢◌, refl, List, [], ◌∷◌, All, All-map, ok, >>=-eq-ok, ok-injective, nat_eq,
  ne_false, subst, sym, ap,
}
use marinatb.Common.Dict
use marinatb.Common.Dict.{Dict}
use marinatb.Platform.{JsonLib, UuidLib, Inet, Std}
use marinatb.Ident
use marinatb.Ident.{Uuid, of_id}
use marinatb.Topo.Switch
use marinatb.Topo.Switch.{Switch}
use marinatb.Topo.Host
use marinatb.Topo.Host.{Host}
use marinatb.Topo.Testbed.{TbLink, TestbedTopology}
use marinatb.Topo.Connected.{visit_link, visit_links, connected_hosts}
use marinatb.Json.Object.{Supply, sub, extract, extract_string}
use marinatb.Json.Values.{to_bandwidth}
use marinatb.Json.Parts.{into_map, into_list, to_network}
use marinatb.Json.Wholes.{to_switch, to_host, to_tb_link, to_topology}

-- The id was drawn while the value was read.
abbrev pub Drawn : Supply → Uuid → Type 0
Drawn s id = (path : List ℕ) × (id ≡ (s path).id)

-- No link names an id that is drawn.
abbrev pub Fresh : Supply → List TbLink → Type 0
Fresh s ls =
    (path : List ℕ) → All (λ x. (x.first.id ≢ (s path).id) × (x.second.id ≢ (s path).id)) ls

module _ {J : Type 0} (l : JsonLib J) (u : UuidLib) (o : Inet) where
  to_switch-Drawn : (s : Supply) (j : J) (x : Switch) → to_switch l u o s j ≡ ok x → Drawn s x.id
  unfolding to_switch Switch.create
  to_switch-Drawn s j x h =
      let one = >>=-eq-ok (extract_string l j "name") _ h in
      let two = >>=-eq-ok (extract l j "backplane") _ one.2 in
      let three = >>=-eq-ok (to_bandwidth l two.0) _ two.2 in
      let four = >>=-eq-ok (extract l j "networks") _ three.2 in
      let five =
        >>=-eq-ok (into_list (to_network l u o) (sub s 0) 0 (l.elements four.0)) _ four.2 in
      ([], ap (λ (y : Switch). y.id) (sym (ok-injective five.2)))

  switches-Drawn :
      (s : Supply) (n : ℕ) (js : List J) (m r : Dict Uuid Switch)
      → All (λ e. Drawn s e.1.id) m
      → into_map (to_switch l u o) (λ x. x.id) s n js m ≡ ok r
      → All (λ e. Drawn s e.1.id) r
  unfolding into_map
  switches-Drawn s n [] m r a h = subst (All (λ e. Drawn s e.1.id)) (ok-injective h) a
  switches-Drawn s n (j ∷ js) m r a h =
      let one = >>=-eq-ok (to_switch l u o (sub s n) j) _ h in
      let drawn = to_switch-Drawn (sub s n) j one.0 one.1 in
      switches-Drawn s (suc n) js _ r
        (Dict.insert_or_assign-All (λ (x : Switch). Drawn s x.id) one.0.id one.0 m
          (n ∷ drawn.0, drawn.1) a)
        one.2

  read_switches :
      (s : Supply) (j : J) (t : TestbedTopology)
      → to_topology l u o s j ≡ ok t
      → All (λ e. Drawn s e.1.id) t.switches
  unfolding to_topology
  read_switches s j t h =
      let name_j = >>=-eq-ok (l.at j "name") _ h in
      let name = >>=-eq-ok (l.get_string name_j.0) _ name_j.2 in
      let hosts_j = >>=-eq-ok (l.at j "hosts") _ name.2 in
      let hosts =
        >>=-eq-ok (into_map (to_host l u) Host.id (sub s 0) 0 (l.elements hosts_j.0) []) _
          hosts_j.2 in
      let switches_j = >>=-eq-ok (l.at j "switches") _ hosts.2 in
      let switches =
        >>=-eq-ok (into_map (to_switch l u o) (λ x. x.id) (sub s 1) 0 (l.elements switches_j.0) [])
          _ switches_j.2 in
      let links_j = >>=-eq-ok (l.at j "links") _ switches.2 in
      let links =
        >>=-eq-ok (into_list (to_tb_link l u) (sub s 2) 0 (l.elements links_j.0)) _ links_j.2 in
      let drawn =
        All-map (λ e d. (1 ∷ d.0, d.1)) switches.0
          (switches-Drawn (sub s 1) 0 (l.elements switches_j.0) [] switches.0 tt switches.1) in
      subst (λ (x : TestbedTopology). All (λ e. Drawn s e.1.id) x.switches) (ok-injective links.2)
        drawn

module _ (st : Std) (hosts : Dict Uuid Host) (id : Uuid) where
  no_visit :
      (ls : List TbLink) (hs : List Host)
      → All (λ x. (x.first.id ≢ id) × (x.second.id ≢ id)) ls
      → visit_links st hosts (of_id id) ls hs ≡ hs
  unfolding visit_links visit_link Ident.eq
  no_visit [] hs a = refl
  no_visit (x ∷ ls) hs a =
      rw (ne_false x.first.id id a.0.0, ne_false x.second.id id a.0.1) (no_visit ls hs a.1)

module _ {J : Type 0} (l : JsonLib J) (u : UuidLib) (o : Inet) where
  -- In a topology that was read from JSON, no switch has a host, if no link names an id that is drawn.
  pub to_topology-severs :
      (st : Std) (s : Supply) (j : J) (t : TestbedTopology)
      → to_topology l u o s j ≡ ok t
      → Fresh s t.links
      → All (λ e. connected_hosts st t e.1 ≡ []) t.switches
  unfolding connected_hosts
  to_topology-severs st s j t h f =
      All-map
        (λ e d. no_visit st t.hosts e.1.id t.links [] (
          subst (λ id. All (λ x. (x.first.id ≢ id) × (x.second.id ≢ id)) t.links) (sym d.1)
            (f d.0)))
        t.switches (read_switches l u o s j t h)
