-- ===== src/Json/WholeLaws.antt =====
-- Reading a blueprint that was written (core/blueprint.cxx).
use marinatb.Common.{
  ◌≡◌, refl, none, List, [], ◌∷◌, map, All, All-map, All-intro, ok, nat_eq, ap, ◌∙◌, sym,
}
use marinatb.Common.Dict.{Dict, find}
use marinatb.Platform.{JsonLib, JsonLaws, UuidLib, UuidLaws, Inet}
use marinatb.Ip.{IpV4Address, of_string}
use marinatb.Ident.{Uuid}
use marinatb.Blueprint.Network.{Network}
use marinatb.Blueprint.Computer.{Computer}
use marinatb.Blueprint.Store.{Blueprint}
use marinatb.Blueprint.Reachable.{IsKeyed}
use marinatb.Json.Object.{Supply, sub, extract-object}
use marinatb.Json.Values.{of_uuid}
use marinatb.Json.ValueLaws.{IsUuid, string-object, uuid-read}
use marinatb.Json.Parts.{
  into_map, into_list, values_json, of_network, to_network, of_computer, to_computer, of_link,
  to_link,
}
use marinatb.Json.ListLaws.{into_map-append, into_list-map, map_values, ReadsAs}
use marinatb.Json.PartLaws.{
  IsNetwork, IsComputer, IsLink, stored, network-read, computer-read, link-read,
}
use marinatb.Json.Wholes.{of_blueprint, to_blueprint}

-- The members hold values of their types, and the maps are keyed by id.
abbrev pub IsBlueprint : Blueprint → Type 0
IsBlueprint b =
    IsUuid b.id
    × All (λ e. IsComputer e.1) b.computers
    × All (λ e. IsNetwork e.1) b.networks
    × All IsLink b.links
    × IsKeyed b

abbrev pub stored_blueprint : Blueprint → Blueprint
stored_blueprint b = record b { computers = map_values stored b.computers }

nothing_before : {V : Type 0} → (m : Dict Uuid V) → All (λ e. find {V = V} e.0 [] ≡ none) m
unfolding find
nothing_before m = All-intro (λ e. refl) m

same_list : {A : Type 0} → (xs : List A) → map (λ x. x) xs ≡ xs
same_list [] = refl
same_list (x ∷ xs) = ap (◌∷◌ x) (same_list xs)

same_map : {V : Type 0} → (m : Dict Uuid V) → map_values (λ x. x) m ≡ m
same_map [] = refl
same_map (e ∷ m) = ap (◌∷◌ e) (same_map m)

module _ {J : Type 0} (l : JsonLib J) (laws : JsonLaws l) (u : UuidLib) (uuids : UuidLaws u) where
  computers_readable :
      (m : Dict Uuid Computer)
      → All (λ e. IsComputer e.1) m
      → All (λ e. e.0 ≡ e.1.id) m
      → All (ReadsAs (to_computer l u) (λ c. c.id) (of_computer l u) stored) m
  computers_readable [] h k = tt
  computers_readable ((i, c) ∷ m) h k =
      ((λ s. computer-read l laws u uuids s c h.0, sym k.0), computers_readable m h.1 k.1)

  computers-read :
      (s : Supply) (b : Blueprint)
      → IsBlueprint b
      → into_map (to_computer l u) (λ c. c.id) s 0 (values_json (of_computer l u) b.computers) []
        ≡ ok (map_values stored b.computers)
  computers-read s b h =
      into_map-append (to_computer l u) (λ c. c.id) (of_computer l u) stored s 0 b.computers []
        (computers_readable b.computers h.1 h.4.0.0) (nothing_before b.computers) h.4.0.1

  module _ (o : Inet) (space : IpV4Address) (e : of_string o "10.10.0.0" 16 ≡ ok space) where
    networks_readable :
        (m : Dict Uuid Network)
        → All (λ e. IsNetwork e.1) m
        → All (λ e. e.0 ≡ e.1.id) m
        → All (ReadsAs (to_network l u o) (λ n. n.id) (of_network l u) (λ n. n)) m
    networks_readable [] h k = tt
    networks_readable ((i, n) ∷ m) h k =
        ((λ s. network-read l laws u uuids o space s n e h.0, sym k.0), networks_readable m h.1 k.1)

    networks-read :
        (s : Supply) (b : Blueprint)
        → IsBlueprint b
        → into_map (to_network l u o) (λ n. n.id) s 0 (values_json (of_network l u) b.networks) []
          ≡ ok b.networks
    networks-read s b h =
        into_map-append (to_network l u o) (λ n. n.id) (of_network l u) (λ n. n) s 0 b.networks []
          (networks_readable b.networks h.2 h.4.1.0) (nothing_before b.networks) h.4.1.1
        ∙ ap ok (same_map b.networks)

  links-read :
      (s : Supply) (b : Blueprint)
      → IsBlueprint b
      → into_list (to_link l u) s 0 (map (of_link l u) b.links) ≡ ok b.links
  links-read s b h =
      into_list-map (to_link l u) (of_link l u) (λ x. x) s 0 b.links
        (All-map (λ x i s. link-read l laws u uuids s x i) b.links h.3)
      ∙ ap ok (same_list b.links)

  -- A blueprint is read back from its JSON, but that every computer has the disk of a new one and its
  -- control interface first in its map, if its members hold values of their types, every computer has a
  -- control interface, and interfaces stand under their names and the other members under their ids. The
  -- default address space parses.
  pub to_blueprint-of_blueprint :
      (o : Inet) (space : IpV4Address) (s : Supply) (b : Blueprint)
      → of_string o "10.10.0.0" 16 ≡ ok space
      → IsBlueprint b
      → to_blueprint l u o s (of_blueprint l u b) ≡ ok (stored_blueprint b)
  unfolding to_blueprint of_blueprint
  to_blueprint-of_blueprint o space s b e h = rw (
    string-object l laws _ "name" b.name refl,
    extract-object l laws _ "id" (of_uuid l u b.id) refl,
    uuid-read l laws u uuids (sub s 0) b.id h.0,
    extract-object l laws _ "computers" (l.of_array (values_json (of_computer l u) b.computers))
        refl,
    laws.elements-of_array (values_json (of_computer l u) b.computers),
    computers-read (sub s 1) b h,
    extract-object l laws _ "networks" (l.of_array (values_json (of_network l u) b.networks)) refl,
    laws.elements-of_array (values_json (of_network l u) b.networks),
    networks-read o space e (sub s 2) b h,
    extract-object l laws _ "links" (l.of_array (map (of_link l u) b.links)) refl,
    laws.elements-of_array (map (of_link l u) b.links),
    links-read (sub s 3) b h,
  )
