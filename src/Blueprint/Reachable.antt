-- ===== src/Blueprint/Reachable.antt =====
-- The blueprints that the operations of class Blueprint make (core/blueprint.cxx).
use marinatb.Common.{
  ℕ, zero, suc, String, ◌≡◌, Option-cases, inl, inr, find_if, ok, err, out_of_range, ok-injective,
  >>=-eq-ok, subst, nat_eq, Bool, All,
}
use marinatb.Common.Dict
use marinatb.Common.Dict.{Dict}
use marinatb.Common.Keyed.{Keyed, insert_or_assign-Keyed, emplace-Keyed, erase-Keyed, update-Keyed}
use marinatb.Platform.{Inet}
use marinatb.Ident.{Uuid}
use marinatb.Blueprint.Interface.{Interface}
use marinatb.Blueprint.Network
use marinatb.Blueprint.Network.{Network}
use marinatb.Blueprint.Computer
use marinatb.Blueprint.Computer.{Computer}
use marinatb.Blueprint.Store.{
  Blueprint, create, set_name, network, computer, erase_found, remove_computer, remove_network,
  connect, connect_networks, get_computer, get_network,
}
use marinatb.Blueprint.Edits.{
  ComputerEdit, NetworkEdit, edit_computer, edit_network, computer_edited, network_edited,
  edit_computer-id, edit_network-id,
}
use marinatb.Blueprint.Removal.{remove_computer-keeps_others, remove_network-keeps_others}

-- A run of operations on a new blueprint.
pub data Reachable (o : Inet) : Blueprint → Type 0 where
  created : (name : String) (id : Uuid) → Reachable o (create name id)
  with_computer :
      {bp : Blueprint} (name : String) (id : Uuid) (mac : String)
      → Reachable o bp
      → Reachable o (computer bp name id mac).0
  with_network :
      {bp bp' : Blueprint} (name : String) (id : Uuid) (n : Network)
      → Reachable o bp
      → network o bp name id ≡ ok (bp', n)
      → Reachable o bp'
  without_computer :
      {bp : Blueprint} (name : String) → Reachable o bp → Reachable o (remove_computer bp name)
  without_network :
      {bp : Blueprint} (name : String) → Reachable o bp → Reachable o (remove_network bp name)
  with_link :
      {bp : Blueprint} (end : Computer × Interface) (n : Network)
      → Reachable o bp
      → Reachable o (connect bp end n)
  with_networks_link :
      {bp : Blueprint} (x y : Network) → Reachable o bp → Reachable o (connect_networks bp x y)
  renamed : {bp : Blueprint} (name : String) → Reachable o bp → Reachable o (set_name bp name)
  with_computer_edit :
      {bp : Blueprint} (id : Uuid) (e : ComputerEdit)
      → Reachable o bp
      → Reachable o (computer_edited bp id e)
  with_network_edit :
      {bp : Blueprint} (id : Uuid) (e : NetworkEdit)
      → Reachable o bp
      → Reachable o (network_edited o bp id e)

-- Every computer and every network stands under its id, once.
abbrev pub IsKeyed : Blueprint → Type 0
IsKeyed bp = Keyed (λ (c : Computer). c.id) bp.computers × Keyed (λ (n : Network). n.id) bp.networks

pub erase_found-All :
    {V : Type 0} (P : V → Type 0) (fuel : ℕ) (test : Uuid × V → Bool) (m : Dict Uuid V)
    → All (λ e. P e.1) m
    → All (λ e. P e.1) (erase_found fuel test m)
unfolding erase_found
erase_found-All P zero test m h = h
erase_found-All P (suc fuel) test m h = elim (Option-cases (find_if test m)) [
  | inl e ↦ rw (e, erase_found) h
  | inr ((k, v), e) ↦
      rw (e, erase_found) (erase_found-All P fuel test (Dict.erase k m) (Dict.erase-All P k m h))
]

erase_found-Keyed :
    {V : Type 0} (key : V → Uuid) (fuel : ℕ) (test : Uuid × V → Bool) (m : Dict Uuid V)
    → Keyed key m
    → Keyed key (erase_found fuel test m)
unfolding erase_found
erase_found-Keyed key zero test m h = h
erase_found-Keyed key (suc fuel) test m h = elim (Option-cases (find_if test m)) [
  | inl e ↦ rw (e, erase_found) h
  | inr ((k, v), e) ↦
      rw (e, erase_found) (erase_found-Keyed key fuel test (Dict.erase k m) (erase-Keyed key k m h))
]

network-IsKeyed :
    (o : Inet) (bp bp' : Blueprint) (name : String) (id : Uuid) (n : Network)
    → IsKeyed bp
    → network o bp name id ≡ ok (bp', n)
    → IsKeyed bp'
unfolding network
network-IsKeyed o bp bp' name id n h e =
    let one = >>=-eq-ok (Network.create o name id) _ e in
    subst (λ (x : Blueprint × Network). IsKeyed x.0) (ok-injective one.2)
      (h.0, emplace-Keyed (λ (n : Network). n.id) one.0 bp.networks h.1)

-- In a blueprint that the operations make, those on the handles of its components included, every
-- computer and every network stands under its id, once.
pub Reachable-IsKeyed : (o : Inet) {bp : Blueprint} → Reachable o bp → IsKeyed bp
unfolding create computer remove_computer remove_network connect connect_networks set_name
    computer_edited network_edited
Reachable-IsKeyed o (created name id) = ((tt, tt), (tt, tt))
Reachable-IsKeyed o (with_computer {bp = bp} name id mac r) =
    let h = Reachable-IsKeyed o r in
    (
      insert_or_assign-Keyed (λ (c : Computer). c.id) (Computer.create name id mac) bp.computers
          h.0,
      h.1,
    )
Reachable-IsKeyed o (with_network {bp = bp} {bp' = bp'} name id n r e) =
    network-IsKeyed o bp bp' name id n (Reachable-IsKeyed o r) e
Reachable-IsKeyed o (without_computer {bp = bp} name r) =
    let h = Reachable-IsKeyed o r in (erase_found-Keyed _ _ _ bp.computers h.0, h.1)
Reachable-IsKeyed o (without_network {bp = bp} name r) =
    let h = Reachable-IsKeyed o r in (h.0, erase_found-Keyed _ _ _ bp.networks h.1)
Reachable-IsKeyed o (with_link end n r) = Reachable-IsKeyed o r
Reachable-IsKeyed o (with_networks_link x y r) = Reachable-IsKeyed o r
Reachable-IsKeyed o (renamed name r) = Reachable-IsKeyed o r
Reachable-IsKeyed o (with_computer_edit {bp = bp} id e r) =
    let h = Reachable-IsKeyed o r in
    (
      update-Keyed (λ (c : Computer). c.id) id (edit_computer e) bp.computers
          (λ c k. edit_computer-id e c) h.0,
      h.1,
    )
Reachable-IsKeyed o (with_network_edit {bp = bp} id e r) =
    let h = Reachable-IsKeyed o r in
    (
      h.0,
      update-Keyed (λ (n : Network). n.id) id (edit_network o e) bp.networks
          (λ n k. edit_network-id o e n) h.1,
    )

-- In a blueprint that the operations make, those on the handles of its components included, no computer
-- and no network has a name after it is removed.
pub Reachable-removes :
    (o : Inet) (bp : Blueprint) (name : String)
    → Reachable o bp
    → (get_computer (remove_computer bp name) name ≡ err out_of_range)
      × (get_network (remove_network bp name) name ≡ err out_of_range)
Reachable-removes o bp name r =
    let h = Reachable-IsKeyed o r in
    ((remove_computer-keeps_others bp name h.0.1).1, (remove_network-keeps_others bp name h.1.1).1)
