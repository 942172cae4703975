-- ===== src/Topo/Removing.antt =====
-- What removeSw and removeHost take away (core/topo.cxx).
use marinatb.Common.{
  String, ◌≡◌, ◌≢◌, refl, false, none, some, List, [], ◌∷◌, All, All-map, All-remove_if, arith,
  nat_eq, ok, ok-injective, find_if, remove_if, inl, inr, ◌⊎◌, ap, subst, Bool-cases,
}
use marinatb.Ident
use marinatb.Ident.{Uuid, Endpoint, of_id}
use marinatb.Ident.Laws.{eq-iff_agrees}
use marinatb.Topo.Switch.{Switch}
use marinatb.Topo.Host.{Host}
use marinatb.Topo.Testbed.{
  TestbedTopology, TbLink, named_switch, named_host, touches, remove_endpoint_link, remove_sw,
  remove_host, get_sw,
}

-- The links of a host as `connect` makes them: the first end is at the host and has an address, the
-- second is at a switch.
abbrev pub LinkedByMac : Uuid → List TbLink → Type 0
LinkedByMac k = All λ l. (l.first.id ≡ k → l.first.mac ≢ none) × (l.second.id ≢ k)

mac_differs : (k : Uuid) (a : Endpoint) → (a.id ≡ k → a.mac ≢ none) → Ident.eq a (of_id k) ≡ false
mac_differs k a h = elim (Bool-cases (Ident.eq a (of_id k))) [
  | inl y ↦ let same = (eq-iff_agrees a (of_id k)).0 y in absurd (h same.0 (either same.1))
  | inr n ↦ n
]
  where
    either : (a.mac ≡ none) ⊎ (a.mac ≡ none) → a.mac ≡ none
    either (inl e) = e
    either (inr e) = e

none_touched :
    (k : Uuid) (ls : List TbLink) → LinkedByMac k ls → remove_if (touches (of_id k)) ls ≡ ls
unfolding remove_if touches
none_touched k [] h = refl
none_touched k (l ∷ ls) h =
    rw (mac_differs k l.first h.0.0, mac_differs k l.second (λ e. absurd (h.0.1 e)))
      (ap (◌∷◌ l) (none_touched k ls h.1))

-- removeHost leaves a topology as it is, the host and its links included, if the links of the host
-- have the address of its interface, as `connect` gives them.
pub remove_host-changes_nothing :
    (t : TestbedTopology) (name : String) (k : Uuid) (h : Host)
    → find_if (named_host name) t.hosts ≡ some (k, h)
    → LinkedByMac k t.links
    → remove_host t name ≡ ok t
unfolding remove_host remove_endpoint_link
remove_host-changes_nothing t name k h e l = rw e (rw (none_touched k t.links l))

-- Neither end of a link is at the switch.
abbrev pub Apart : Uuid → TbLink → Type 0
Apart k l = (l.first.id ≡ k → l.first.mac ≢ none) × (l.second.id ≡ k → l.second.mac ≢ none)

untouched-Apart : (k : Uuid) (l : TbLink) → touches (of_id k) l ≡ false → Apart k l
unfolding touches
untouched-Apart k l h = (
  λ i m. ground (arith, (eq-iff_agrees l.first (of_id k)).1 (i, inl m)),
  λ i m. ground (arith, (eq-iff_agrees l.second (of_id k)).1 (i, inl m)),
)

-- removeSw removes the links with an end at the switch that has no address, and leaves the switches
-- and the hosts as they are: the switch can still be looked up.
pub remove_sw-keeps_switch :
    (t t' : TestbedTopology) (name : String) (k : Uuid) (s : Switch)
    → find_if (named_switch name) t.switches ≡ some (k, s)
    → remove_sw t name ≡ ok t'
    → All (Apart k) t'.links
      × (t'.switches ≡ t.switches)
      × (t'.hosts ≡ t.hosts)
      × (get_sw t' name ≡ ok s)
unfolding remove_sw remove_endpoint_link get_sw
remove_sw-keeps_switch t t' name k s e r =
    let left : remove_endpoint_link t (of_id k) ≡ t' = ok-injective (rw e at r) in
    subst
      (λ (x : TestbedTopology).
        All (Apart k) x.links
        × (x.switches ≡ t.switches)
        × (x.hosts ≡ t.hosts)
        × (get_sw x name ≡ ok s))
      left
      (All-map (untouched-Apart k) _ (All-remove_if (touches (of_id k)) t.links), refl, refl, rw e)
