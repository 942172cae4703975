-- ===== src/Json/Made.antt =====
-- What the blueprints that the operations make hold, for their JSON (core/blueprint.cxx).
use marinatb.Common.{
  String, ◌≡◌, subst, string_eq, nat_eq, List, [], ◌∷◌, ◌++◌, All, ok, arith, >>=-eq-ok,
  ok-injective,
}
use marinatb.Common.Dict
use marinatb.Common.Dict.{Dict}
use marinatb.Platform.{Inet, JsonLib, JsonLaws, UuidLib, UuidLaws}
use marinatb.Ip.{of_string, IpV4Address}
use marinatb.Ident.{Uuid}
use marinatb.Blueprint.Network
use marinatb.Blueprint.Network.{Network}
use marinatb.Blueprint.Links.{of_computer, of_networks}
use marinatb.Blueprint.Store.{
  Blueprint, create, set_name, network, computer, remove_computer, remove_network, connect,
  connect_networks,
}
use marinatb.Blueprint.Edits.{edit_computer, edit_network, computer_edited, network_edited}
use marinatb.Blueprint.Reachable.{
  Reachable, created, with_computer, with_network, without_computer, without_network, with_link,
  with_networks_link, renamed, with_computer_edit, with_network_edit, Reachable-IsKeyed,
  erase_found-All,
}
use marinatb.Json.ValueLaws.{IsUuid}
use marinatb.Json.PartLaws.{IsNetwork, IsComputer, IsLink}
use marinatb.Json.Object.{Supply}
use marinatb.Json.Wholes.{of_blueprint, to_blueprint}
use marinatb.Json.WholeLaws.{IsBlueprint, stored_blueprint, to_blueprint-of_blueprint}
use marinatb.Json.InRange.{ComputerInRange, NetworkInRange, PtonInRange}
use marinatb.Json.Built.{
  edit_computer-IsComputer, create-IsComputer, of_string-IsAddress, edit_network-IsNetwork,
}

-- The ids that a run draws or is given are of 16 bytes, and what it tells the handles of components fits
-- their JSON.
unfoldable pub InRange : {o : Inet} {bp : Blueprint} → Reachable o bp → Type 0
InRange (created name id) = IsUuid id
InRange (with_computer name id mac r) = IsUuid id × InRange r
InRange (with_network name id n r e) = IsUuid id × InRange r
InRange (without_computer name r) = InRange r
InRange (without_network name r) = InRange r
InRange (with_link end n r) = IsUuid end.0.id × IsUuid n.id × InRange r
InRange (with_networks_link x y r) = IsUuid x.id × IsUuid y.id × InRange r
InRange (renamed name r) = InRange r
InRange (with_computer_edit id e r) = ComputerInRange e × InRange r
InRange (with_network_edit id e r) = NetworkInRange e × InRange r

All-snoc :
    {A : Type 0} (P : A → Type 0) (xs : List A) (x : A) → All P xs → P x → All P (xs ++ x ∷ [])
All-snoc P [] x a h = (h, tt)
All-snoc P (y ∷ xs) x a h = (a.0, All-snoc P xs x a.1 h)

-- The members alone.
abbrev Members : Blueprint → Type 0
Members b =
    IsUuid b.id
    × All (λ e. IsComputer e.1) b.computers
    × All (λ e. IsNetwork e.1) b.networks
    × All IsLink b.links

module _ (o : Inet) (pton : PtonInRange o) where
  network-Members :
      (bp bp' : Blueprint) (name : String) (id : Uuid) (n : Network)
      → IsUuid id
      → Members bp
      → network o bp name id ≡ ok (bp', n)
      → Members bp'
  unfolding network Network.create
  network-Members bp bp' name id n i h e =
      let one = >>=-eq-ok (Network.create o name id) _ e in
      let two = >>=-eq-ok (of_string o "10.10.0.0" 16) _ one.1 in
      let made : IsNetwork one.0 = subst IsNetwork (ok-injective two.2) (
        omega arith,
        omega arith,
        of_string-IsAddress o pton "10.10.0.0" 16 two.0 (omega arith) two.1,
        i,
      ) in
      subst (λ (x : Blueprint × Network). Members x.0) (ok-injective one.2)
        (h.0, h.1, Dict.emplace-All IsNetwork one.0.id one.0 bp.networks made h.2, h.3)

  Reachable-Members : {bp : Blueprint} (r : Reachable o bp) → InRange r → Members bp
  unfolding InRange create computer remove_computer remove_network connect connect_networks set_name
      computer_edited network_edited of_computer of_networks
  Reachable-Members (created name id) i = (i, tt, tt, tt)
  Reachable-Members (with_computer {bp = bp} name id mac r) i =
      let h = Reachable-Members r i.1 in
      (
        h.0,
        Dict.insert_or_assign-All IsComputer _ _ bp.computers (create-IsComputer name mac id i.0)
            h.1,
        h.2,
        h.3,
      )
  Reachable-Members (with_network {bp = bp} {bp' = bp'} name id n r e) i =
      network-Members bp bp' name id n i.0 (Reachable-Members r i.1) e
  Reachable-Members (without_computer {bp = bp} name r) i =
      let h = Reachable-Members r i in
      (h.0, erase_found-All IsComputer _ _ bp.computers h.1, h.2, h.3)
  Reachable-Members (without_network {bp = bp} name r) i =
      let h = Reachable-Members r i in
      (h.0, h.1, erase_found-All IsNetwork _ _ bp.networks h.2, h.3)
  Reachable-Members (with_link {bp = bp} end n r) i =
      let h = Reachable-Members r i.2 in (h.0, h.1, h.2, All-snoc IsLink bp.links _ h.3 (i.0, i.1))
  Reachable-Members (with_networks_link {bp = bp} x y r) i =
      let h = Reachable-Members r i.2 in (h.0, h.1, h.2, All-snoc IsLink bp.links _ h.3 (i.0, i.1))
  Reachable-Members (renamed name r) i = Reachable-Members r i
  Reachable-Members (with_computer_edit {bp = bp} id e r) i =
      let h = Reachable-Members r i.1 in
      (
        h.0,
        Dict.update-All IsComputer id (edit_computer e) bp.computers
            (λ c g. edit_computer-IsComputer e c i.0 g) h.1,
        h.2,
        h.3,
      )
  Reachable-Members (with_network_edit {bp = bp} id e r) i =
      let h = Reachable-Members r i.1 in
      (
        h.0,
        h.1,
        Dict.update-All IsNetwork id (edit_network o e) bp.networks
            (λ n g. edit_network-IsNetwork o pton e n i.0 g) h.2,
        h.3,
      )

  Reachable-IsBlueprint : {bp : Blueprint} (r : Reachable o bp) → InRange r → IsBlueprint bp
  Reachable-IsBlueprint r i =
      let h = Reachable-Members r i in (h.0, h.1, h.2, h.3, Reachable-IsKeyed o r)

  -- A blueprint that the operations make is read back from its JSON, with the disks of new computers and
  -- the control interfaces first, if the ids have 16 bytes, what the handles of its components are told
  -- fits their JSON, no control interface is removed and no interface renamed. inet_pton gives 32 bits,
  -- and the default address space parses.
  pub to_blueprint-Reachable :
      {J : Type 0} (l : JsonLib J) (laws : JsonLaws l) (u : UuidLib) (uuids : UuidLaws u)
      (space : IpV4Address) (draw : Supply) {bp : Blueprint} (r : Reachable o bp)
      → of_string o "10.10.0.0" 16 ≡ ok space
      → InRange r
      → to_blueprint l u o draw (of_blueprint l u bp) ≡ ok (stored_blueprint bp)
  to_blueprint-Reachable l laws u uuids space draw {bp = bp} r sp i =
      to_blueprint-of_blueprint l laws u uuids o space draw bp sp (Reachable-IsBlueprint r i)
