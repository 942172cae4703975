-- ===== src/Json/ListLaws.antt =====
-- Reading arrays that were written.
use marinatb.Common.{
  ℕ, suc, ◌≡◌, refl, false, none, List, [], ◌∷◌, ◌++◌, map, All, Result, ok, ◌==◌, Eq, ap, ◌∙◌, sym,
  arith,
}
use marinatb.Common.Dict
use marinatb.Common.Dict.{Dict, Unique, find}
use mathlib.Core.List.{append_assoc, append-nil}
use marinatb.Json.Object.{Supply, sub}
use marinatb.Json.Parts.{into_map, into_list, values_json}

abbrev pub map_values : {K A : Type 0} → (A → A) → Dict K A → Dict K A
map_values h m = map (λ e. (e.0, h e.1)) m

module _ {K V : Type 0} ⦃keys : Eq K⦄ where
  pub apart : (k : K) (m : Dict K V) → find k m ≡ none → All (λ e. (k == e.0) ≡ false) m
  unfolding find
  apart k [] h = tt
  apart k ((j, v) ∷ m) h =
      (ground (arith, keys.beq_iff j k, keys.beq_iff k j), apart k m (ground arith))

  pub absent_later :
      (k : K) (v : V) (m : Dict K V) (rest : Dict K V)
      → All (λ e. find e.0 m ≡ none) rest
      → All (λ e. (k == e.0) ≡ false) rest
      → All (λ e. find e.0 (m ++ (k, v) ∷ []) ≡ none) rest
  absent_later k v m [] h a = tt
  absent_later k v m ((j, w) ∷ rest) h a = (
    rw (Dict.find-append j m ((k, v) ∷ []), h.0) (unfold Dict.find in rw a.0),
    absent_later k v m rest h.1 a.1,
  )

module _ {J A K : Type 0} ⦃keys : Eq K⦄ (parse : Supply → J → Result A) (key : A → K)
    (print : A → J) (kept : A → A) where
  -- A value is read as what is kept of it, which has the key.
  abbrev pub ReadsAs : K × A → Type 0
  ReadsAs e = ((s : Supply) → parse s (print e.1) ≡ ok (kept e.1)) × (key (kept e.1) ≡ e.0)

  -- The entries of a map with other keys are read and put behind those that are there.
  pub into_map-append :
      (s : Supply) (n : ℕ) (rest m : Dict K A)
      → All ReadsAs rest
      → All (λ e. find e.0 m ≡ none) rest
      → Unique rest
      → into_map parse key s n (values_json print rest) m ≡ ok (m ++ map_values kept rest)
  unfolding into_map
  into_map-append s n [] m r a u = ap ok (sym (append-nil m))
  into_map-append s n ((k, x) ∷ rest) m r a u =
      let later = absent_later k (kept x) m rest a.1 (apart k rest u.0) in
      rw (r.0.0 (sub s n), r.0.1, Dict.insert_or_assign-absent k (kept x) m a.0)
        (into_map-append s (suc n) rest (m ++ (k, kept x) ∷ []) r.1 later u.1
          ∙ ap ok (append_assoc m ((k, kept x) ∷ []) (map_values kept rest)))

module _ {J A : Type 0} (parse : Supply → J → Result A) (print : A → J) (kept : A → A) where
  pub into_list-map :
      (s : Supply) (n : ℕ) (xs : List A)
      → All (λ x. (s : Supply) → parse s (print x) ≡ ok (kept x)) xs
      → into_list parse s n (map print xs) ≡ ok (map kept xs)
  unfolding into_list
  into_list-map s n [] r = refl
  into_list-map s n (x ∷ xs) r = rw (r.0 (sub s n), into_list-map s (suc n) xs r.1)
