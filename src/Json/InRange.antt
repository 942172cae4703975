-- ===== src/Json/InRange.antt =====
-- Calls on the handles of a computer and a network whose values fit their JSON (core/blueprint.cxx).
use marinatb.Common.{
  ℕ, String, false, ◌≡◌, refl, sym, ◌==◌, string_eq, nat_eq, ◌∷◌, All, some, Bool-cases, inl, inr,
  ◌<◌, size_mod, arith, Bool, true, ◌∙◌, none, if◌then◌else◌, [], ◌∷◌,
}
use marinatb.Common.Dict
use marinatb.Common.Dict.{Dict}
use marinatb.Common.Keyed.{Keyed, emplace-Keyed, erase-Keyed, update-Keyed}
use marinatb.Platform.{Inet}
use marinatb.Ip.{u32_mod}
use marinatb.Blueprint.Interface
use marinatb.Blueprint.Interface.{Interface}
use marinatb.Blueprint.Edits.{
  InterfaceEdit, ComputerEdit, NetworkEdit, interface_name, interface_latency, interface_capacity,
  computer_name, computer_os, computer_memory, computer_disk, computer_cores, interface_added,
  interface_removed, interface_edited, network_name, network_capacity, network_latency,
  network_space,
}
use marinatb.Json.PartLaws.{IsInterface}

-- The name of an interface is left alone: its key would stay.
abbrev pub InterfaceInRange : InterfaceEdit → Type 0
InterfaceInRange (interface_name x) = ⊥
InterfaceInRange (interface_latency x) = x.size < size_mod
InterfaceInRange (interface_capacity x) = x.size < size_mod

-- The control interface is not removed.
abbrev pub ComputerInRange : ComputerEdit → Type 0
ComputerInRange (computer_name x) = Unit {0}
ComputerInRange (computer_os x) = Unit {0}
ComputerInRange (computer_memory x) = x.size < size_mod
ComputerInRange (computer_disk x) = Unit {0}
ComputerInRange (computer_cores x) = x < size_mod
ComputerInRange (interface_added name capacity latency mac) =
    (capacity.size < size_mod) × (latency.size < size_mod)
ComputerInRange (interface_removed name) = ("cifx" == name) ≡ false
ComputerInRange (interface_edited name e) = InterfaceInRange e

abbrev pub NetworkInRange : NetworkEdit → Type 0
NetworkInRange (network_name x) = Unit {0}
NetworkInRange (network_capacity x) = x.size < size_mod
NetworkInRange (network_latency x) = x.size < size_mod
NetworkInRange (network_space addr mask) = mask < u32_mod

-- inet_pton gives 32 bits.
abbrev pub PtonInRange : Inet → Type 0
PtonInRange o = (text : String) (a : ℕ) → o.pton text ≡ some a → a < u32_mod

-- A map of interfaces as a computer has it.
unfoldable pub Interfaces : Dict String Interface → Type 0
Interfaces m =
    (control : Interface) × (Dict.find "cifx" m ≡ some control)
    × Keyed (λ (i : Interface). i.name) m
    × All (λ e. IsInterface e.1) m

if_true : {A : Type 0} {b : Bool} {x : A} (y : A) → b ≡ true → (if b then x else y) ≡ x
if_true y e = rw e refl

if_false : {A : Type 0} {b : Bool} (x : A) {y : A} → b ≡ false → (if b then x else y) ≡ y
if_false x e = rw e refl

-- There is a control interface.
Controlled : Dict String Interface → Type 0
Controlled m = (control : Interface) × (Dict.find "cifx" m ≡ some control)

emplace-Controlled :
    (k : String) (i : Interface) (m : Dict String Interface)
    → Controlled m
    → Controlled (Dict.emplace k i m)
unfolding Controlled
emplace-Controlled k i m (control, h) = elim (Bool-cases (k == "cifx")) [
  | inl y ↦ (_, Dict.find-emplace k "cifx" i m ∙ if_true _ y)
  | inr n ↦ (control, Dict.find-emplace k "cifx" i m ∙ if_false _ n ∙ h)
]

update-Controlled :
    (k : String) (f : Interface → Interface) (m : Dict String Interface)
    → Controlled m
    → Controlled (Dict.update k f m)
unfolding Controlled Dict.find Dict.update
update-Controlled k f [] (control, h) = let bad : none ≡ some control = h in cc
update-Controlled k f ((j, w) ∷ m) (control, h) = elim (Bool-cases (j == "cifx")) [
  | inl y ↦ elim (Bool-cases (j == k)) [
    | inl z ↦ rw (z, y) (f w, refl)
    | inr z ↦ rw (z, y) (w, refl)
  ]
  | inr n ↦
      let rest : Controlled (Dict.update k f m) =
        update-Controlled k f m (control, sym (if_false _ n) ∙ h) in
      elim (Bool-cases (j == k)) [
        | inl z ↦ rw (z, n) (control, sym (if_false _ n) ∙ h)
        | inr z ↦ rw (z, n) rest
      ]
]

erase-Controlled :
    (k : String) (m : Dict String Interface)
    → ("cifx" == k) ≡ false
    → Controlled m
    → Controlled (Dict.erase k m)
unfolding Controlled
erase-Controlled k m n (control, h) =
    let other : (k == "cifx") ≡ false =
      ground (arith, string_eq.beq_iff k "cifx", string_eq.beq_iff "cifx" k) in
    (control, Dict.find-erase k "cifx" m ∙ if_false _ other ∙ h)

pub update-Interfaces :
    (k : String) (f : Interface → Interface) (m : Dict String Interface)
    → ((i : Interface) → k ≡ i.name → (f i).name ≡ i.name)
    → ((i : Interface) → IsInterface i → IsInterface (f i))
    → Interfaces m
    → Interfaces (Dict.update k f m)
unfolding Interfaces Controlled
update-Interfaces k f m same good h =
    let first : Controlled (Dict.update k f m) = update-Controlled k f m (h.0, h.1) in
    (
      first.0,
      first.1,
      update-Keyed (λ (i : Interface). i.name) k f m same h.2,
      Dict.update-All IsInterface k f m good h.3,
    )

pub erase-Interfaces :
    (k : String) (m : Dict String Interface)
    → ("cifx" == k) ≡ false
    → Interfaces m
    → Interfaces (Dict.erase k m)
unfolding Interfaces Controlled
erase-Interfaces k m n h =
    let first : Controlled (Dict.erase k m) = erase-Controlled k m n (h.0, h.1) in
    (
      first.0,
      first.1,
      erase-Keyed (λ (i : Interface). i.name) k m h.2,
      Dict.erase-All IsInterface k m h.3,
    )

pub created-IsInterface : (name mac : String) → IsInterface (Interface.create name mac)
unfolding Interface.create
created-IsInterface name mac = (omega arith, omega arith, (omega arith, omega arith))

pub emplace-Interfaces :
    (name mac : String) (m : Dict String Interface)
    → Interfaces m
    → Interfaces (Dict.emplace name (Interface.create name mac) m)
unfolding Interfaces Controlled Interface.create
emplace-Interfaces name mac m h =
    let i = Interface.create name mac in
    let first : Controlled (Dict.emplace name i m) = emplace-Controlled name i m (h.0, h.1) in
    (
      first.0,
      first.1,
      emplace-Keyed (λ (i : Interface). i.name) i m h.2,
      Dict.emplace-All IsInterface name i m (created-IsInterface name mac) h.3,
    )
