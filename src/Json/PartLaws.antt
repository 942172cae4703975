-- ===== src/Json/PartLaws.antt =====
-- Reading interfaces, networks, computers and links that were written (core/blueprint.cxx).
use mathlib.Core.List.{append_assoc}
use marinatb.Common.{
  ℕ, suc, Option, some, true, false, Bool-cases, if◌then◌else◌, inl, inr, ◌==◌, ◌++◌, arith,
  All-intro, ◌≡◌, refl, none, [], ◌∷◌, All, ok, size_mod, String, string_eq, ap, ◌∙◌, ◌<◌, subst,
  sym,
}
use marinatb.Common.Dict
use marinatb.Common.Dict.{Dict, Unique}
use marinatb.Common.Keyed.{Keyed}
use marinatb.Platform.{JsonLib, JsonLaws, UuidLib, UuidLaws, Inet}
use marinatb.Units.Memory.{gb}
use marinatb.Units.Bandwidth.{gbps}
use marinatb.Ip.{IpV4Address, of_string}
use marinatb.Ident.{Uuid}
use marinatb.Blueprint.Interface
use marinatb.Blueprint.Interface.{Interface}
use marinatb.Blueprint.Network
use marinatb.Blueprint.Network.{Network}
use marinatb.Blueprint.Computer
use marinatb.Blueprint.Computer.{Computer}
use marinatb.Blueprint.Links.{Link}
use marinatb.Json.Object.{object, Supply, sub, extract-object}
use marinatb.Json.Values.{of_memory, of_bandwidth, of_latency, of_address, of_uuid, of_endpoint}
use marinatb.Json.ValueLaws.{
  IsUuid, IsAddress, string-object, size-object, memory-read, bandwidth-read, latency-read,
  address-read, uuid-read, endpoint-read,
}
use marinatb.Json.Parts.{
  into_map, values_json, of_interface, to_interface, of_network, to_network, of_computer,
  to_computer, of_link, to_link,
}
use marinatb.Json.ListLaws.{into_map-append, map_values, ReadsAs, apart, absent_later}

-- The values that the members can hold.
abbrev pub IsInterface : Interface → Type 0
IsInterface i = (i.latency.size < size_mod) × (i.capacity.size < size_mod) × IsAddress i.einfo

abbrev pub IsNetwork : Network → Type 0
IsNetwork n =
    (n.latency.size < size_mod)
    × (n.bandwidth.size < size_mod)
    × IsAddress n.ipv4space
    × IsUuid n.id

-- There is a control interface, and every interface stands under its name, once.
abbrev pub HasInterfaces : Computer → Type 0
HasInterfaces c =
    (control : Interface) × (Dict.find "cifx" c.interfaces ≡ some control)
    × Keyed (λ (i : Interface). i.name) c.interfaces
    × All (λ e. IsInterface e.1) c.interfaces

abbrev pub IsComputer : Computer → Type 0
IsComputer c = (c.memory.size < size_mod) × (c.cores < size_mod) × IsUuid c.id × HasInterfaces c

abbrev pub IsLink : Link → Type 0
IsLink x = IsUuid x.first.id × IsUuid x.second.id

abbrev first_of : Option Interface → Dict String Interface → Dict String Interface
first_of none m = m
first_of (some i) m = ("cifx", i) ∷ m

-- The same map, with the control interface before the others.
abbrev pub control_first : Dict String Interface → Dict String Interface
control_first m = first_of (Dict.find "cifx" m) (Dict.erase "cifx" m)

-- What is kept of a computer: its disk is that of a new one, and its control interface is the first.
abbrev pub stored : Computer → Computer
stored c = record c {
  disk = record { size = 10; unit = gb };
  interfaces = control_first c.interfaces;
}

module _ {J : Type 0} (l : JsonLib J) (laws : JsonLaws l) where
  open l use {of_string as json_string}

  pub interface-read :
      (s : Supply) (i : Interface) → IsInterface i → to_interface l s (of_interface l i) ≡ ok i
  unfolding to_interface of_interface Interface.create
  interface-read s i h = rw (
    string-object l laws _ "name" i.name refl,
    extract-object l laws _ "latency" (of_latency l i.latency) refl,
    latency-read l laws i.latency h.0,
    extract-object l laws _ "capacity" (of_bandwidth l i.capacity) refl,
    bandwidth-read l laws i.capacity h.1,
    string-object l laws _ "mac" i.mac refl,
    extract-object l laws _ "einfo" (object l (("ipv4", of_address l i.einfo) ∷ [])) refl,
    extract-object l laws _ "ipv4" (of_address l i.einfo) refl,
    address-read l laws i.einfo h.2,
  )

module _ {J : Type 0} (l : JsonLib J) (laws : JsonLaws l) (u : UuidLib) (uuids : UuidLaws u) where
  -- The constructor parses the default address space, which is overwritten.
  pub network-read :
      (o : Inet) (space : IpV4Address) (s : Supply) (n : Network)
      → of_string o "10.10.0.0" 16 ≡ ok space
      → IsNetwork n
      → to_network l u o s (of_network l u n) ≡ ok n
  unfolding to_network of_network Network.create
  network-read o space s n e h = rw (
    string-object l laws _ "name" n.name refl,
    e,
    extract-object l laws _ "latency" (of_latency l n.latency) refl,
    latency-read l laws n.latency h.0,
    extract-object l laws _ "capacity" (of_bandwidth l n.bandwidth) refl,
    bandwidth-read l laws n.bandwidth h.1,
    extract-object l laws _ "id" (of_uuid l u n.id) refl,
    uuid-read l laws u uuids (sub s 1) n.id h.3,
    extract-object l laws _ "ipv4" (of_address l n.ipv4space) refl,
    address-read l laws n.ipv4space h.2,
  )

  pub link-read : (s : Supply) (x : Link) → IsLink x → to_link l u s (of_link l u x) ≡ ok x
  unfolding to_link of_link
  link-read s x h = rw (
    extract-object l laws _ "endpoints"
        (l.of_array (of_endpoint l u x.first ∷ of_endpoint l u x.second ∷ [])) refl,
    laws.get_array-of_array (of_endpoint l u x.first ∷ of_endpoint l u x.second ∷ []),
    endpoint-read l laws u uuids (sub s 0) x.first h.0,
    endpoint-read l laws u uuids (sub s 1) x.second h.1,
  )

  same_values : (m : Dict String Interface) → map_values (λ i. i) m ≡ m
  same_values [] = refl
  same_values (e ∷ m) = ap (◌∷◌ e) (same_values m)

  interfaces_readable :
      (m : Dict String Interface)
      → All (λ e. e.0 ≡ e.1.name) m
      → All (λ e. IsInterface e.1) m
      → All (ReadsAs (to_interface l) (λ i. i.name) (of_interface l) (λ i. i)) m
  interfaces_readable [] k h = tt
  interfaces_readable ((k, i) ∷ m) same h =
      ((λ s. interface-read l laws s i h.0, sym same.0), interfaces_readable m same.1 h.1)

  abbrev new_control : String → Interface
  new_control mac = record (Interface.create "cifx" mac) {
    capacity = record { size = 1; unit = gbps };
  }

  created_interfaces :
      (name mac : String) (id : Uuid)
      → (Computer.create name id mac).interfaces ≡ ("cifx", new_control mac) ∷ []
  unfolding Computer.create Computer.add_ifx Dict.emplace Dict.update Interface.create
  created_interfaces name mac id = refl

  created_members :
      (name mac : String) (id : Uuid)
      → ((Computer.create name id mac).name ≡ name)
        × ((Computer.create name id mac).disk ≡ record { size = 10; unit = gb })
  unfolding Computer.create Computer.add_ifx
  created_members name mac id = (refl, refl)

  insert-named :
      (k : String) (v : Interface) (m : Dict String Interface)
      → v.name ≡ k
      → Dict.insert_or_assign v.name v m ≡ Dict.insert_or_assign k v m
  insert-named k v m e = ap (λ j. Dict.insert_or_assign j v m) e

  insert-control :
      (v x : Interface) (before : Dict String Interface)
      → Dict.insert_or_assign "cifx" v (("cifx", x) ∷ before) ≡ ("cifx", v) ∷ before
  unfolding Dict.insert_or_assign
  insert-control v x before = refl

  insert-other :
      (k : String) (v x : Interface) (before : Dict String Interface)
      → (k == "cifx") ≡ false
      → Dict.find k before ≡ none
      → Dict.insert_or_assign k v (("cifx", x) ∷ before) ≡ ("cifx", x) ∷ (before ++ (k, v) ∷ [])
  unfolding Dict.insert_or_assign
  insert-other k v x before y a =
      let other : ("cifx" == k) ≡ false =
        ground (arith, string_eq.beq_iff k "cifx", string_eq.beq_iff "cifx" k) in
      rw other (ap (λ m. ("cifx", x) ∷ m) (Dict.insert_or_assign-absent k v before a))

  absent-control :
      (v : Interface) (before rest : Dict String Interface)
      → All (λ e. Dict.find e.0 before ≡ none) rest
      → All (λ e. ("cifx" == e.0) ≡ false) rest
      → All (λ e. Dict.find e.0 (("cifx", v) ∷ before) ≡ none) rest
  unfolding Dict.find
  absent-control v before [] a b = tt
  absent-control v before ((j, w) ∷ rest) a b = (rw b.0 a.0, absent-control v before rest a.1 b.1)

  erase_control :
      (k : String) (v : Interface) (rest : Dict String Interface)
      → (k == "cifx") ≡ true
      → Dict.find "cifx" rest ≡ none
      → Dict.erase "cifx" ((k, v) ∷ rest) ≡ rest
  unfolding Dict.erase
  erase_control k v rest y h = rw y (Dict.erase-absent "cifx" rest h)

  erase_other :
      (k : String) (v : Interface) (rest : Dict String Interface)
      → (k == "cifx") ≡ false
      → Dict.erase "cifx" ((k, v) ∷ rest) ≡ (k, v) ∷ Dict.erase "cifx" rest
  unfolding Dict.erase
  erase_other k v rest y = rw y refl

  find-head :
      (k : String) (v i : Interface) (rest : Dict String Interface)
      → (k == "cifx") ≡ true
      → Dict.find "cifx" ((k, v) ∷ rest) ≡ some i
      → v ≡ i
  unfolding Dict.find
  find-head k v i rest y h =
      let same : some v ≡ some i =
        sym (ap (λ b. if b then some v else Dict.find "cifx" rest) y) ∙ h in
      cc

  find-tail :
      (k : String) (v i : Interface) (rest : Dict String Interface)
      → (k == "cifx") ≡ false
      → Dict.find "cifx" ((k, v) ∷ rest) ≡ some i
      → Dict.find "cifx" rest ≡ some i
  unfolding Dict.find
  find-tail k v i rest y h = rw y at h

  listed-control :
      (s : Supply) (n : ℕ) (x v : Interface) (before rest : Dict String Interface)
      → ReadsAs (to_interface l) (λ i. i.name) (of_interface l) (λ i. i) ("cifx", v)
      → All (ReadsAs (to_interface l) (λ i. i.name) (of_interface l) (λ i. i)) rest
      → All (λ e. Dict.find e.0 before ≡ none) rest
      → Dict.find "cifx" rest ≡ none
      → Unique rest
      → into_map
          (to_interface l)
          (λ i. i.name)
          s
          n
          (values_json (of_interface l) (("cifx", v) ∷ rest))
          (("cifx", x) ∷ before)
        ≡ ok (("cifx", v) ∷ (before ++ rest))
  unfolding into_map
  listed-control s n x v before rest c r a f u =
      rw
        (
          c.0 (sub s n),
          insert-named "cifx" v (("cifx", x) ∷ before) c.1 ∙ insert-control v x before,
        )
        (into_map-append (to_interface l) (λ i. i.name) (of_interface l) (λ i. i) s (suc n) rest
            (("cifx", v) ∷ before) r (absent-control v before rest a (apart "cifx" rest f)) u
          ∙ ap (λ m. ok (("cifx", v) ∷ (before ++ m))) (same_values rest))

  -- The array is read into a map that begins with a control interface, which is overwritten where the
  -- one of the array comes.
  listed-read :
      (s : Supply) (n : ℕ) (x i : Interface) (before m : Dict String Interface)
      → All (ReadsAs (to_interface l) (λ i. i.name) (of_interface l) (λ i. i)) m
      → All (λ e. Dict.find e.0 before ≡ none) m
      → Unique m
      → Dict.find "cifx" m ≡ some i
      → into_map
          (to_interface l)
          (λ i. i.name)
          s
          n
          (values_json (of_interface l) m)
          (("cifx", x) ∷ before)
        ≡ ok (("cifx", i) ∷ (before ++ Dict.erase "cifx" m))
  unfolding into_map Dict.find
  listed-read s n x i before [] r a u h = let bad : none ≡ some i = h in cc
  listed-read s n x i before ((k, v) ∷ m) r a u h = elim (Bool-cases (k == "cifx")) [
    | inl y ↦
        let same : k ≡ "cifx" = (string_eq.beq_iff k "cifx").0 y in
        let f : Dict.find "cifx" m ≡ none = subst (λ j. Dict.find j m ≡ none) same u.0 in
        listed-control s n x v before m (r.0.0, r.0.1 ∙ same) r.1 a.1 f u.1
        ∙ ap (λ j. ok (("cifx", j) ∷ (before ++ m))) (find-head k v i m y h)
        ∙ ap (λ rest. ok (("cifx", i) ∷ (before ++ rest))) (sym (erase_control k v m y f))
    | inr y ↦
        rw
          (
            r.0.0 (sub s n),
            insert-named k v (("cifx", x) ∷ before) r.0.1 ∙ insert-other k v x before y a.0,
          )
          (listed-read s (suc n) x i (before ++ (k, v) ∷ []) m r.1
              (absent_later k v before m a.1 (apart k m u.0)) u.1 (find-tail k v i m y h)
            ∙ ap (λ rest. ok (("cifx", i) ∷ rest))
                (append_assoc before ((k, v) ∷ []) (Dict.erase "cifx" m)
                  ∙ ap (λ rest. before ++ rest) (sym (erase_other k v m y))))
  ]

  none_before : (m : Dict String Interface) → All (λ e. Dict.find {V = Interface} e.0 [] ≡ none) m
  unfolding Dict.find
  none_before m = All-intro (λ e. refl) m

  interfaces-read :
      (s : Supply) (name mac : String) (id : Uuid) (c : Computer)
      → HasInterfaces c
      → into_map
          (to_interface l)
          (λ i. i.name)
          s
          0
          (values_json (of_interface l) c.interfaces)
          (Computer.create name id mac).interfaces
        ≡ ok (control_first c.interfaces)
  interfaces-read s name mac id c (control, found, (named, once), h) =
      ap (into_map (to_interface l) (λ i. i.name) s 0 (values_json (of_interface l) c.interfaces))
        (created_interfaces name mac id)
      ∙ listed-read s 0 (new_control mac) control [] c.interfaces
          (interfaces_readable c.interfaces named h) (none_before c.interfaces) once found
      ∙ ap (λ o. ok (first_of o (Dict.erase "cifx" c.interfaces))) (sym found)

  pub computer-read :
      (s : Supply) (c : Computer)
      → IsComputer c
      → to_computer l u s (of_computer l u c) ≡ ok (stored c)
  unfolding to_computer of_computer
  computer-read s c h = rw (
    string-object l laws _ "name" c.name refl,
    string-object l laws _ "os" c.os refl,
    extract-object l laws _ "memory" (of_memory l c.memory) refl,
    memory-read l laws c.memory h.0,
    size-object l laws _ "cores" c.cores refl h.1,
    extract-object l laws _ "id" (of_uuid l u c.id) refl,
    uuid-read l laws u uuids (sub s 1) c.id h.2,
    extract-object l laws _ "interfaces" (l.of_array (values_json (of_interface l) c.interfaces))
        refl,
    laws.elements-of_array (values_json (of_interface l) c.interfaces),
    interfaces-read (sub s 2) c.name (s []).mac (s []).id c h.3,
    (created_members c.name (s []).mac (s []).id).0,
    (created_members c.name (s []).mac (s []).id).1,
  )
