-- ===== src/Embed/Packing.antt =====
-- What `pack` does (core/embed.cxx), for machines that are new to the host and distinct.
use marinatb.Common.{
  ◌≡◌, refl, true, false, List, [], ◌∷◌, ◌++◌, map, none, ◌==◌, nat_eq, All, Bool-cases, inl, inr,
  if◌then◌else◌, ap,
}
use mathlib.Core.List.{append_assoc, append-nil}
use marinatb.Common.Dict
use marinatb.Common.Dict.{Dict}
use marinatb.Platform.{Pipes}
use marinatb.Ident.{Uuid}
use marinatb.Blueprint.Computer.{Computer}
use marinatb.Embed.Load.{HostEmbedding, load, overloaded, add_machine, drop_machine}
use marinatb.Embed.Pack.{pack}

-- No machine of the list is on the host.
abbrev pub Absent : Dict Uuid Computer → List Computer → Type 0
Absent m = All λ c. Dict.find c.id m ≡ none

-- No two machines of the list have one id.
abbrev pub Distinct : List Computer → Type 0
Distinct [] = Unit
Distinct (c ∷ cs) = All (λ x. (c.id == x.id) ≡ false) cs × Distinct cs

abbrev pub entry : Computer → Uuid × Computer
entry c = (c.id, c)

pub add_machine-absent :
    (he : HostEmbedding) (c : Computer)
    → Dict.find c.id he.machines ≡ none
    → add_machine he c ≡ record he { machines = he.machines ++ entry c ∷ [] }
unfolding add_machine
add_machine-absent he c h = rw (Dict.insert_or_assign-absent c.id c he.machines h)

pub drop-add_machine :
    (he : HostEmbedding) (c : Computer)
    → Dict.find c.id he.machines ≡ none
    → drop_machine (add_machine he c) c ≡ he
unfolding add_machine drop_machine
drop-add_machine he c h = rw (
  Dict.insert_or_assign-absent c.id c he.machines h,
  Dict.erase-append_absent c.id c he.machines h,
)

Absent-append :
    (m : Dict Uuid Computer) (c : Computer) (cs : List Computer)
    → Absent m cs
    → All (λ x. (c.id == x.id) ≡ false) cs
    → Absent (m ++ entry c ∷ []) cs
Absent-append m c [] a d = tt
Absent-append m c (x ∷ xs) a d = (
  rw (Dict.find-append x.id m (entry c ∷ []), a.0) (unfold Dict.find in rw d.0),
  Absent-append m c xs a.1 d.1,
)

module _ {F : Type 0} (p : Pipes F) where
  -- The machines that `pack` moves to the host.
  pub taken : HostEmbedding → List Computer → List Computer
  taken he [] = []
  taken he (c ∷ cs) =
      let rest = c ∷ taken (add_machine he c) cs in
      if overloaded (load p (add_machine he c)) then [] else rest

  pub Absent-grown :
      (he : HostEmbedding) (c : Computer) (cs : List Computer)
      → Absent he.machines (c ∷ cs)
      → Distinct (c ∷ cs)
      → Absent (add_machine he c).machines cs
  Absent-grown he c cs a d =
      rw (add_machine-absent he c a.0) (Absent-append he.machines c cs a.1 d.0)

  pub pack-full :
      (he : HostEmbedding) (c : Computer) (cs : List Computer)
      → Dict.find c.id he.machines ≡ none
      → overloaded (load p (add_machine he c)) ≡ true
      → pack p he (c ∷ cs) ≡ (he, c ∷ cs)
  unfolding pack
  pack-full he c cs a full = rw (full, drop-add_machine he c a)

  pub pack-more :
      (he : HostEmbedding) (c : Computer) (cs : List Computer)
      → overloaded (load p (add_machine he c)) ≡ false
      → pack p he (c ∷ cs) ≡ pack p (add_machine he c) cs
  unfolding pack
  pack-more he c cs fits = rw fits

  -- The list is what `pack` moves, followed by what it leaves.
  pub taken-append-pack :
      (he : HostEmbedding) (cs : List Computer) → cs ≡ taken he cs ++ (pack p he cs).1
  unfolding pack taken
  taken-append-pack he [] = refl
  taken-append-pack he (c ∷ cs) = elim (Bool-cases (overloaded (load p (add_machine he c)))) [
    | inl full ↦ rw full
    | inr fits ↦ rw fits (ap (◌∷◌ c) (taken-append-pack (add_machine he c) cs))
  ]

  -- The host gets just the machines that are moved, behind those that it has.
  pub pack-host :
      (he : HostEmbedding) (cs : List Computer)
      → Absent he.machines cs
      → Distinct cs
      → (pack p he cs).0 ≡ record he { machines = he.machines ++ map entry (taken he cs) }
  unfolding pack taken
  pack-host he [] a d = rw append-nil
  pack-host he (c ∷ cs) a d = elim (Bool-cases (overloaded (load p (add_machine he c)))) [
    | inl full ↦ rw (full, append-nil) (drop-add_machine he c a.0)
    | inr fits ↦
        rw (fits, pack-host (add_machine he c) cs (Absent-grown he c cs a d) d.1)
          (rw (add_machine-absent he c a.0, append_assoc))
  ]

  -- `pack` splits the list: the front goes to the host, behind the machines that it has and in the
  -- order of the list, and the rest is left. The machines are new to the host and distinct.
  pub pack-splits :
      (he : HostEmbedding) (cs : List Computer)
      → Absent he.machines cs
      → Distinct cs
      → (moved : List Computer) × (cs ≡ moved ++ (pack p he cs).1)
        × ((pack p he cs).0 ≡ record he { machines = he.machines ++ map entry moved })
  pack-splits he cs a d = (taken he cs, taken-append-pack he cs, pack-host he cs a d)

  -- A host that is not overloaded is not overloaded by `pack`, if the machines are new to it and
  -- distinct.
  pub pack-fits :
      (he : HostEmbedding) (cs : List Computer)
      → Absent he.machines cs
      → Distinct cs
      → overloaded (load p he) ≡ false
      → overloaded (load p (pack p he cs).0) ≡ false
  unfolding pack
  pack-fits he [] a d h = h
  pack-fits he (c ∷ cs) a d h = elim (Bool-cases (overloaded (load p (add_machine he c)))) [
    | inl full ↦ rw (full, drop-add_machine he c a.0) h
    | inr fits ↦ rw fits (pack-fits (add_machine he c) cs (Absent-grown he c cs a d) d.1 fits)
  ]

  -- Where `pack` leaves machines, the first of them would overload the host as `pack` leaves it, if the
  -- machines are new to the host and distinct.
  pub pack-stops :
      (he : HostEmbedding) (cs rest : List Computer) (c : Computer)
      → Absent he.machines cs
      → Distinct cs
      → (pack p he cs).1 ≡ c ∷ rest
      → overloaded (load p (add_machine (pack p he cs).0 c)) ≡ true
  unfolding pack
  pack-stops he [] rest c a d e = cc
  pack-stops he (x ∷ cs) rest c a d e = elim (Bool-cases (overloaded (load p (add_machine he x)))) [
    | inl full ↦
        let left : x ∷ cs ≡ c ∷ rest = rw full at e in
        let same : x ≡ c = cc in rw (full, drop-add_machine he x a.0, ← same) full
    | inr fits ↦
        let left : (pack p (add_machine he x) cs).1 ≡ c ∷ rest = rw fits at e in
        rw fits (pack-stops (add_machine he x) cs rest c (Absent-grown he x cs a d) d.1 left)
  ]
