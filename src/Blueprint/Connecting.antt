-- ===== src/Blueprint/Connecting.antt =====
-- What `connect` changes in the view of a blueprint as a graph (core/blueprint.cxx).
use mathlib.Core.List.{append-nil, filter_map, filter_map-append}
use marinatb.Common.{
  ◌≡◌, ◌≢◌, refl, some, List, [], ◌∷◌, ◌++◌, arith, nat_eq, ==_refl, ne_false, Result, ok, err,
  ◌>>=◌, sequence, ap, sym, ◌∙◌,
}
use marinatb.Common.Dict
use marinatb.Platform.{Pipes, PipesLaws}
use marinatb.Ident.{Endpoint, of_id, of_mac}
use marinatb.Blueprint.Interface.{Interface}
use marinatb.Blueprint.Network.{Network}
use marinatb.Blueprint.Computer.{Computer, get_interface_by_mac}
use marinatb.Blueprint.Links.{of_computer}
use marinatb.Blueprint.Store.{Blueprint, connect}
use marinatb.Blueprint.Graph.{facing, computer_at, interface_of, neighbors, connected_computers}

sequence-append {ℓ} :
    {A : Type ℓ} (rs ss : List (Result A))
    → sequence (rs ++ ss) ≡ (do xs ← sequence rs; ys ← sequence ss; ok (xs ++ ys))
unfolding sequence
sequence-append [] ss = elim (sequence ss) as (λ r. r ≡ (r >>= λ ys. ok ys)) [
  | ok ys ↦ refl
  | err e ↦ refl
]
sequence-append (ok x ∷ rs) ss = ground (arith, sequence-append rs ss)
sequence-append (err e ∷ rs) ss = refl

module _ {F : Type 0} (p : Pipes F) (laws : PipesLaws p) where
  neighbors-connect :
      (bp : Blueprint) (c : Computer) (i : Interface) (n : Network) (e : Endpoint)
      → neighbors p (connect bp (c, i) n) e
        ≡ neighbors p bp e ++ filter_map (facing e) (of_computer (c, i) n ∷ [])
  unfolding neighbors connect
  neighbors-connect bp c i n e =
      laws.collect_law (facing e) _
      ∙ filter_map-append (facing e) bp.links _
      ∙ ap (λ (l : List Endpoint). l ++ filter_map (facing e) (of_computer (c, i) n ∷ []))
          (sym (laws.collect_law (facing e) bp.links))

  -- The members of a network as the ends that face it.
  members : (bp : Blueprint) → List Endpoint → Result (List (Computer × Interface))
  members bp es = sequence (filter_map (computer_at bp) es)

  connected_computers-members :
      (bp : Blueprint) (n : Network)
      → connected_computers p bp n ≡ members bp (neighbors p bp (of_id n.id))
  unfolding connected_computers members
  connected_computers-members bp n = ap sequence (laws.collect_law (computer_at bp) _)

  members-append :
      (bp : Blueprint) (es fs : List Endpoint)
      → members bp (es ++ fs) ≡ (do xs ← members bp es; ys ← members bp fs; ok (xs ++ ys))
  unfolding members
  members-append bp es fs = rw (filter_map-append (computer_at bp) es fs) (sequence-append _ _)

  members-connect :
      (bp : Blueprint) (l : Computer × Interface) (n : Network) (es : List Endpoint)
      → members (connect bp l n) es ≡ members bp es
  unfolding members connect computer_at
  members-connect bp l n es = refl

  facing_new :
      (c : Computer) (i : Interface) (n : Network)
      → c.id ≢ n.id
      → filter_map (facing (of_id n.id)) (of_computer (c, i) n ∷ []) ≡ of_mac c.id i.mac ∷ []
  unfolding facing of_computer filter_map
  facing_new c i n h = rw (ne_false c.id n.id h, ==_refl n.id)

  facing_other :
      (c : Computer) (i : Interface) (n m : Network)
      → c.id ≢ m.id
      → n.id ≢ m.id
      → filter_map (facing (of_id m.id)) (of_computer (c, i) n ∷ []) ≡ []
  unfolding facing of_computer filter_map
  facing_other c i n m h k = rw (ne_false c.id m.id h, ne_false n.id m.id k)

  member_new :
      (bp : Blueprint) (c : Computer) (i i' : Interface)
      → Dict.find c.id bp.computers ≡ some c
      → get_interface_by_mac c i.mac ≡ ok i'
      → members bp (of_mac c.id i.mac ∷ []) ≡ ok ((c, i') ∷ [])
  unfolding members computer_at interface_of sequence filter_map
  member_new bp c i i' h k = rw (h, k)

  -- After a computer of the blueprint is connected to a network by an interface that it has, it stands
  -- last, with that interface, among the computers of the network; those of another network are what
  -- they were. The computer and the two networks have different ids.
  pub connected_computers-connect :
      (bp : Blueprint) (c : Computer) (i i' : Interface) (n m : Network)
      → Dict.find c.id bp.computers ≡ some c
      → get_interface_by_mac c i.mac ≡ ok i'
      → c.id ≢ n.id
      → c.id ≢ m.id
      → n.id ≢ m.id
      → (connected_computers p (connect bp (c, i) n) n
          ≡ (do cs ← connected_computers p bp n; ok (cs ++ (c, i') ∷ [])))
        × (connected_computers p (connect bp (c, i) n) m ≡ connected_computers p bp m)
  connected_computers-connect bp c i i' n m hc hi cn cm nm = (
    rw (
      connected_computers-members (connect bp (c, i) n) n,
      members-connect bp (c, i) n,
      neighbors-connect bp c i n (of_id n.id),
      facing_new c i n cn,
      members-append,
      member_new bp c i i' hc hi,
      connected_computers-members bp n,
    ),
    rw (
      connected_computers-members (connect bp (c, i) n) m,
      members-connect bp (c, i) n,
      neighbors-connect bp c i n (of_id m.id),
      facing_other c i n m cm nm,
      append-nil,
      connected_computers-members bp m,
    ),
  )
