-- ===== src/MaterializationService/Silent.antt =====
-- construct where no machine is known (core/materialization-service.cxx).
use marinatb.Common.{
  ◌≡◌, refl, ℕ, String, [], ◌∷◌, Result, ok, err, out_of_range, Option-cases, inl, inr, nat_eq,
  string_eq, ◌⊎◌,
}
use marinatb.Common.Dict
use marinatb.Common.Dict.{Dict}
use marinatb.Platform.{JsonLib, JsonText, UuidLib, Inet, PqLib, Double, Pipes, Std}
use marinatb.Ident.{Uuid}
use marinatb.Blueprint.Network.{Network}
use marinatb.Blueprint.Computer.{Computer}
use marinatb.Blueprint.Graph.{connected_computers}
use marinatb.Blueprint.Store.{Blueprint}
use marinatb.Embed.Load.{HostEmbedding}
use marinatb.Embed.Algorithm.{embed}
use marinatb.Embed.Chart.{EChart, of_topology}
use marinatb.Json.Object.{Supply}
use marinatb.Materialize.Construct.{Materialization, fresh, mz_get}
use marinatb.Database.Store.{new_vxlan_vni}
use marinatb.MaterializationService.Construct.{
  obtain, note_vni, with_vni, host_messages, send_messages, assign_networks, reach_hosts,
  reach_known, build_up,
}
use marinatb.MaterializationService.Same.{Unmanned, Same, Same-pure, on_world-Same, >>=-Same}

module _ {S : Type 0} where
  obtain-Same : (id : Uuid) → Same {S = S} (obtain id) (obtain id)
  unfolding obtain
  obtain-Same id = record {
    same = λ s n. refl;
    kept = λ s n. Dict.emplace-All (λ (z : Materialization). z.machines ≡ []) id fresh s.mzm refl n;
  }

  note_vni-Same : (id n : Uuid) (vni : ℕ) → Same {S = S} (note_vni id n vni) (note_vni id n vni)
  unfolding note_vni
  note_vni-Same id n vni = record {
    same = λ s m. refl;
    kept = λ s m.
        Dict.update-All (λ (z : Materialization). z.machines ≡ []) id (with_vni n vni) s.mzm
          (λ z e. e) m;
  }

mz_get-Unmanned :
    (id : Uuid) (m : Dict Uuid Materialization) → Unmanned m → (mz_get id m).machines ≡ []
unfolding mz_get
mz_get-Unmanned id m h = elim (Option-cases (Dict.find id m)) [
  | inl n ↦ rw (mz_get, n) refl
  | inr (z, e) ↦
      rw (mz_get, e) (Dict.find-All (λ (z : Materialization). z.machines ≡ []) id m z h e)
]

-- Where requests do nothing.
abbrev pub quiet : {J S : Type 0} → String → J → S → S
quiet host message w = w

module _ {J : Type 0} (l : JsonLib J) (u : UuidLib) (mzn : Materialization) (bp : Blueprint) where
  no_messages :
      (ms : Dict Uuid Computer)
      → mzn.machines ≡ []
      → (host_messages l u mzn bp ms ≡ ok []) ⊎ (host_messages l u mzn bp ms ≡ err out_of_range)
  unfolding host_messages Dict.find
  no_messages [] e = inl refl
  no_messages ((k, c) ∷ ms) e = inr (rw e refl)

module _ {J F S : Type 0} (t : JsonText J) (l : JsonLib J) (u : UuidLib) (o : Inet) (q : PqLib S)
    (draw : Supply) (d : Double F) (p : Pipes F) (st : Std) (stoul : String → Result ℕ) where
  assign_networks-Same :
      (id : Uuid) (ns : Dict Uuid Network) (bp : Blueprint)
      → Same
          (assign_networks t l u o q draw d p st stoul id bp ns)
          (assign_networks t l u o q draw d p st stoul id bp ns)
  unfolding assign_networks
  assign_networks-Same id [] bp = Same-pure (ok bp)
  assign_networks-Same id ((k, n) ∷ ns) bp =
      >>=-Same _ _
        (λ vni.
          >>=-Same _ _
            (λ x.
              >>=-Same _ _ (λ members. assign_networks-Same id ns _) _ _
                (Same-pure (connected_computers p bp n)))
            _ _ (note_vni-Same id n.id vni))
        _ _ (on_world-Same (new_vxlan_vni t l u o q stoul (u.unparse n.id)))

  module _ (send : String → J → S → S) where
    reach_hosts-Same :
        (mzn : Materialization) (bp : Blueprint) (hs : Dict Uuid HostEmbedding)
        → mzn.machines ≡ []
        → Same
            (reach_hosts t l u o q draw d p st stoul send mzn bp hs)
            (reach_hosts t l u o q draw d p st stoul quiet mzn bp hs)
    unfolding reach_hosts send_messages
    reach_hosts-Same mzn bp [] e = Same-pure (ok tt)
    reach_hosts-Same mzn bp ((k, he) ∷ hs) e =
        let rest = reach_hosts-Same mzn bp hs e in
        elim (no_messages l u mzn bp he.machines e) [
          | inl h ↦ record {
            same = λ s n. rw h (rest.same s n);
            kept = λ s n. rw h (rest.kept s n);
          }
          | inr h ↦ record { same = λ s n. rw h refl; kept = λ s n. rw h n }
        ]

    reach_known-Same :
        (id : Uuid) (bp : Blueprint) (hs : Dict Uuid HostEmbedding)
        → Same
            (reach_known t l u o q draw d p st stoul send id bp hs)
            (reach_known t l u o q draw d p st stoul quiet id bp hs)
    unfolding reach_known
    reach_known-Same id bp hs = record {
      same =
          λ s n. (reach_hosts-Same (mz_get id s.mzm) bp hs (mz_get-Unmanned id s.mzm n)).same s n;
      kept =
          λ s n. (reach_hosts-Same (mz_get id s.mzm) bp hs (mz_get-Unmanned id s.mzm n)).kept s n;
    }

    pub build_up-Same :
        (project bpid : String)
        → Same
            (build_up t l u o q draw d p st stoul send project bpid)
            (build_up t l u o q draw d p st stoul quiet project bpid)
    unfolding build_up
    build_up-Same project bpid =
        >>=-Same _ _
          (λ bp.
            >>=-Same _ _
              (λ x.
                >>=-Same _ _
                  (λ site.
                    >>=-Same _ _
                      (λ (e : EChart).
                        >>=-Same _ _
                          (λ written.
                            >>=-Same _ _ (λ y. on_world-Same _) _ _
                              (reach_known-Same bp.id written e.hmap))
                          _ _ (assign_networks-Same bp.id bp.networks bp))
                      _ _ (Same-pure (embed d p st bp (of_topology site) site)))
                  _ _ (on_world-Same _))
              _ _ (obtain-Same bp.id))
          _ _ (on_world-Same _)
