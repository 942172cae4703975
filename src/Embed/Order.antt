-- ===== src/Embed/Order.antt =====
-- The order in which embed places computers (core/embed.cxx).
use marinatb.Common.{
  ◌≡◌, false, List, [], ◌∷◌, ◌++◌, ◌==◌, nat_eq, All, any, Bool-cases, inl, inr, All-append, ok,
  sequence, ok-injective, >>=-eq-ok, subst, arith,
}
use marinatb.Platform.{Pipes}
use marinatb.Blueprint.Network.{Network}
use marinatb.Blueprint.Computer.{Computer}
use marinatb.Blueprint.Store.{Blueprint}
use marinatb.Embed.Packing.{Distinct}
use marinatb.Embed.Algorithm.{
  with_members, more_members, Members, same_id, collect_members, collect_networks, placement_order,
}

any_none :
    (c : Computer) (cs : List Computer)
    → any (same_id c) cs ≡ false
    → All (λ x. (x.id == c.id) ≡ false) cs
unfolding any
any_none c [] h = tt
any_none c (x ∷ cs) h = (ground arith, any_none c cs (ground arith))

Distinct-append_one :
    (cs : List Computer) (c : Computer)
    → Distinct cs
    → All (λ x. (x.id == c.id) ≡ false) cs
    → Distinct (cs ++ c ∷ [])
Distinct-append_one [] c d n = (tt, tt)
Distinct-append_one (x ∷ cs) c d n = (later cs d.0, Distinct-append_one cs c d.1 n.1)
  where
    later :
        (ys : List Computer)
        → All (λ y. (x.id == y.id) ≡ false) ys
        → All (λ y. (x.id == y.id) ≡ false) (ys ++ c ∷ [])
    later ys h = All-append _ ys (c ∷ []) h (n.0, tt)

collect_members-Distinct :
    (ms : Members) (cs : List Computer) → Distinct cs → Distinct (collect_members ms cs)
unfolding collect_members
collect_members-Distinct [] cs d = d
collect_members-Distinct ((c, i) ∷ ms) cs d = elim (Bool-cases (any (same_id c) cs)) [
  | inl old ↦ rw old (collect_members-Distinct ms cs d)
  | inr new ↦
      rw new (collect_members-Distinct ms _ (Distinct-append_one cs c d (any_none c cs new)))
]

collect_networks-Distinct :
    (ns : List (Network × Members)) (cs : List Computer)
    → Distinct cs
    → Distinct (collect_networks ns cs)
unfolding collect_networks
collect_networks-Distinct [] cs d = d
collect_networks-Distinct ((n, ms) ∷ ns) cs d =
    collect_networks-Distinct ns _ (collect_members-Distinct ms cs d)

-- The list of the computers to place has no two computers with one id.
pub placement_order-Distinct :
    {F : Type 0} (p : Pipes F) (b : Blueprint) (cs : List Computer)
    → placement_order p b ≡ ok cs
    → Distinct cs
placement_order-Distinct p b cs e = subst Distinct same (collect_networks-Distinct _ [] tt)
  where
    step :
        (nets : List (Network × Members)) × (sequence (p.map (with_members p b) b.networks)
          ≡ ok nets)
        × (ok (collect_networks (p.sort more_members nets) []) ≡ ok cs)
    step = >>=-eq-ok _ _ (unfold placement_order in e)

    same : collect_networks (p.sort more_members step.0) [] ≡ cs
    same = ok-injective step.2
