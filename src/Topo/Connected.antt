-- ===== src/Topo/Connected.antt =====
-- class TestbedTopology: which hosts are at a switch, and which switches at a host.
use marinatb.Common.{
  Bool, ◌==◌, nat_eq, nat_beq, Option, none, some, List, [], ◌∷◌, ◌++◌, Result, ok, err, undefined,
  ◌>>=◌, any, if◌then◌else◌,
}
use marinatb.Common.Dict
use marinatb.Common.Dict.{Dict}
use marinatb.Platform.{Std}
use marinatb.Ident
use marinatb.Ident.{Uuid, Endpoint, of_id}
use marinatb.Topo.Switch.{Switch}
use marinatb.Topo.Host
use marinatb.Topo.Host.{Host}
use marinatb.Topo.Testbed.{TestbedTopology, TbLink}

module _ (st : Std) where
  -- HostSet and SwitchSet: two elements are one if the hashes of their names are equal.
  unfoldable pub same_host : Host → Host → Bool
  same_host a b = nat_beq (st.hash (Host.name a)) (st.hash (Host.name b))

  unfoldable pub same_switch : Switch → Switch → Bool
  same_switch a b = nat_beq (st.hash a.name) (st.hash b.name)

-- unordered_set::insert, which leaves a set that has the element.
unfoldable pub insert_new {ℓ} : {A : Type ℓ} → (A → A → Bool) → A → List A → List A
insert_new same a xs = if any (same a) xs then xs else xs ++ a ∷ []

unfoldable pub insert_found {ℓ} : {A : Type ℓ} → (A → A → Bool) → Option A → List A → List A
unfolding insert_new
insert_found same none xs = xs
insert_found same (some a) xs = insert_new same a xs

module _ (st : Std) (hosts : Dict Uuid Host) (e : Endpoint) where
  -- One round of the loop of connectedHosts.
  unfoldable pub visit_link : TbLink → List Host → List Host
  visit_link l hs =
      let hs' =
        if Ident.eq l.first e
        then insert_found (same_host st) (Dict.find l.second.id hosts) hs
        else hs in
      if Ident.eq l.second e
      then insert_found (same_host st) (Dict.find l.first.id hosts) hs'
      else hs'

  unfoldable pub visit_links : List TbLink → List Host → List Host
  visit_links [] hs = hs
  visit_links (l ∷ ls) hs = visit_links ls (visit_link l hs)

unfoldable pub connected_hosts : Std → TestbedTopology → Switch → List Host
connected_hosts st t s = visit_links st t.hosts (of_id s.id) t.links []

module _ (st : Std) (switches : Dict Uuid Switch) (id : Uuid) where
  -- One round of the loop of connectedSwitches. Where the host is the second end, the code reads
  -- `endpoints[2]`, past the end of the array.
  unfoldable pub visit_host_link : TbLink → List Switch → Result (List Switch)
  visit_host_link l ss =
      let ss' =
        if l.first.id == id
        then insert_found (same_switch st) (Dict.find l.second.id switches) ss
        else ss in
      if l.second.id == id then err undefined else ok ss'

  unfoldable pub visit_host_links : List TbLink → List Switch → Result (List Switch)
  visit_host_links [] ss = ok ss
  visit_host_links (l ∷ ls) ss = do ss' ← visit_host_link l ss; visit_host_links ls ss'

unfoldable pub connected_switches : Std → TestbedTopology → Host → Result (List Switch)
connected_switches st t h = visit_host_links st t.switches (Host.id h) t.links []
