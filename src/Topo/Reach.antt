-- ===== src/Topo/Reach.antt =====
-- Which hosts are found at a switch, and when the search for switches is defined (core/topo.cxx).
use marinatb.Common.{
  ◌≡◌, ◌≢◌, ◌↔◌, refl, true, false, Bool, nat_beq_iff, Option, none, some, List, [], ◌∷◌, ◌++◌, All,
  any, ok, >>=-eq-ok, ◌==◌, nat_eq, ==_refl, ne_false, arith, if◌then◌else◌,
}
use marinatb.Common.Dict
use marinatb.Common.Dict.{Dict}
use marinatb.Platform.{Std}
use marinatb.Ident
use marinatb.Ident.{Uuid, Endpoint, of_id}
use marinatb.Topo.Switch.{Switch}
use marinatb.Topo.Host
use marinatb.Topo.Host.{Host}
use marinatb.Topo.Testbed.{TestbedTopology, TbLink}
use marinatb.Topo.Connected.{
  same_host, same_switch, insert_new, insert_found, visit_link, visit_links, connected_hosts,
  visit_host_link, visit_host_links, connected_switches,
}

module _ (st : Std) (switches : Dict Uuid Switch) (id : Uuid) where
  defined_links :
      (ls : List TbLink) (ss : List Switch)
      → All (λ l. l.second.id ≢ id) ls
      → (found : List Switch) × (visit_host_links st switches id ls ss ≡ ok found)
  unfolding visit_host_links visit_host_link
  defined_links [] ss h = (ss, refl)
  defined_links (l ∷ ls) ss h =
      let step =
        if l.first.id == id
        then insert_found (same_switch st) (Dict.find l.second.id switches) ss
        else ss in
      let rest = defined_links ls step h.1 in (rest.0, rw (ne_false l.second.id id h.0) rest.1)

  defined_link :
      (x : TbLink) (xs ys : List Switch)
      → visit_host_link st switches id x xs ≡ ok ys
      → x.second.id ≢ id
  unfolding visit_host_link
  defined_link x xs ys e q = ground (arith, ==_refl id)

  links_defined :
      (ls : List TbLink) (ss found : List Switch)
      → visit_host_links st switches id ls ss ≡ ok found
      → All (λ l. l.second.id ≢ id) ls
  unfolding visit_host_links
  links_defined [] ss found h = tt
  links_defined (l ∷ ls) ss found h =
      let one = >>=-eq-ok (visit_host_link st switches id l ss) _ h in
      (defined_link l ss one.0 one.1, links_defined ls one.0 found one.2)

-- The search for the switches of a host is defined exactly if no link has the host as its second end.
pub connected_switches-defined_iff :
    (st : Std) (t : TestbedTopology) (h : Host)
    → ((found : List Switch) × (connected_switches st t h ≡ ok found))
      ↔ All (λ l. l.second.id ≢ Host.id h) t.links
unfolding connected_switches
connected_switches-defined_iff st t h = (
  λ r. links_defined st t.switches (Host.id h) t.links [] r.0 r.1,
  λ a. defined_links st t.switches (Host.id h) t.links [] a,
)

module _ {A : Type 0} (same : A → A → Bool) (test : A → Bool) where
  any-append_one : (xs : List A) (a : A) → any test xs ≡ true → any test (xs ++ a ∷ []) ≡ true
  unfolding any
  any-append_one [] a h = cc
  any-append_one (x ∷ xs) a h = ground (arith, any-append_one xs a)

  any-insert_new :
      (a : A) (xs : List A) → any test xs ≡ true → any test (insert_new same a xs) ≡ true
  unfolding insert_new
  any-insert_new a xs h = ground (arith, any-append_one xs a)

  any-insert_found :
      (o : Option A) (xs : List A) → any test xs ≡ true → any test (insert_found same o xs) ≡ true
  unfolding insert_found
  any-insert_found none xs h = h
  any-insert_found (some a) xs h = any-insert_new a xs h

  any-if_insert :
      (b : Bool) (o : Option A) (xs : List A)
      → any test xs ≡ true
      → any test (if b then insert_found same o xs else xs) ≡ true
  any-if_insert true o xs h = any-insert_found o xs h
  any-if_insert false o xs h = h

module _ (st : Std) where
  any_last : (x : Host) (xs : List Host) → any (same_host st x) (xs ++ x ∷ []) ≡ true
  unfolding any same_host
  any_last x [] = ground (arith, nat_beq_iff (st.hash (Host.name x)) (st.hash (Host.name x)))
  any_last x (y ∷ xs) = ground (arith, any_last x xs)

  inserted :
      (x : Host) (xs : List Host) → any (same_host st x) (insert_new (same_host st) x xs) ≡ true
  unfolding insert_new
  inserted x xs = ground (arith, any_last x xs)

module _ (st : Std) (hosts : Dict Uuid Host) (e : Endpoint) where
  -- The hosts that a link joins to the endpoint have a host of one name in the list.
  abbrev pub Found : List Host → TbLink → Type 0
  Found hs l =
      ((x : Host)
        → Ident.eq l.first e ≡ true
        → Dict.find l.second.id hosts ≡ some x
        → any (same_host st x) hs ≡ true)
      × ((x : Host)
          → Ident.eq l.second e ≡ true
          → Dict.find l.first.id hosts ≡ some x
          → any (same_host st x) hs ≡ true)

  visit_link-keeps :
      (test : Host → Bool) (l : TbLink) (hs : List Host)
      → any test hs ≡ true
      → any test (visit_link st hosts e l hs) ≡ true
  unfolding visit_link
  visit_link-keeps test l hs h =
      any-if_insert (same_host st) test (Ident.eq l.second e) (Dict.find l.first.id hosts) _
        (any-if_insert (same_host st) test (Ident.eq l.first e) (Dict.find l.second.id hosts) hs h)

  visit_links-keeps :
      (test : Host → Bool) (ls : List TbLink) (hs : List Host)
      → any test hs ≡ true
      → any test (visit_links st hosts e ls hs) ≡ true
  unfolding visit_links
  visit_links-keeps test [] hs h = h
  visit_links-keeps test (l ∷ ls) hs h = visit_links-keeps test ls _ (visit_link-keeps test l hs h)

  visit_link-Found : (l : TbLink) (hs : List Host) → Found (visit_link st hosts e l hs) l
  unfolding visit_link insert_found
  visit_link-Found l hs = (
    λ x a f.
        any-if_insert (same_host st) (same_host st x) (Ident.eq l.second e)
          (Dict.find l.first.id hosts) _ (rw (a, f) (inserted st x hs)),
    λ x a f. rw (a, f) (inserted st x _),
  )

  Found-later :
      (ls : List TbLink) (hs : List Host) (l : TbLink)
      → Found hs l
      → Found (visit_links st hosts e ls hs) l
  Found-later ls hs l h = (
    λ x a f. visit_links-keeps (same_host st x) ls hs (h.0 x a f),
    λ x a f. visit_links-keeps (same_host st x) ls hs (h.1 x a f),
  )

  visit_links-Found :
      (ls : List TbLink) (hs : List Host) → All (Found (visit_links st hosts e ls hs)) ls
  unfolding visit_links
  visit_links-Found [] hs = tt
  visit_links-Found (l ∷ ls) hs = (
    Found-later ls (visit_link st hosts e l hs) l (visit_link-Found l hs),
    visit_links-Found ls _,
  )

-- A host that a link joins to the switch is among the hosts that are found at the switch, or another
-- host is there whose name has the same hash.
pub connected_hosts-Found :
    (st : Std) (t : TestbedTopology) (s : Switch)
    → All (Found st t.hosts (of_id s.id) (connected_hosts st t s)) t.links
unfolding connected_hosts
connected_hosts-Found st t s = visit_links-Found st t.hosts (of_id s.id) t.links []
