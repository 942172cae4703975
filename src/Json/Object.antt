-- ===== src/Json/Object.antt =====
-- Objects as the code builds and reads them: `Json j; j["a"] = x; ...`, and `extract` (core/util.hxx).
use marinatb.Common.{
  ℕ, String, ◌≡◌, true, false, Option, none, some, List, [], ◌∷◌, ◌==◌, ==_true, string_eq, Result,
  ok, err, out_of_range, ◌>>=◌, Bool-cases, inl, inr, subst, if◌then◌else◌, ◌∙◌,
}
use marinatb.Common.Dict.{Dict}
use marinatb.Platform.{JsonLib, JsonLaws}
use marinatb.Ident.{Uuid}

-- What the constructors of one value draw from the random device.
pub record Draw : Type 0 where
  pub id : Uuid
  pub mac : String

-- The draws of a call and of the calls that it makes, by their place in it.
abbrev pub Supply : Type 0
Supply = List ℕ → Draw

abbrev pub sub : Supply → ℕ → Supply
sub s n path = s (n ∷ path)

module _ {J : Type 0} (l : JsonLib J) where
  write_all : J → Dict String J → J
  write_all j [] = j
  write_all j ((k, v) ∷ fields) = write_all (l.set j k v) fields

  -- A new value with fields written one after the other.
  unfoldable pub object : Dict String J → J
  unfolding write_all
  object fields = write_all l.null fields

  -- Whatever `at` throws, extract throws out_of_range.
  unfoldable pub extract : J → String → Result J
  extract j tag = elim (l.at j tag) [ ok x ↦ ok x | err e ↦ err out_of_range ]

  -- extract where a string or a size is assigned from it
  abbrev pub extract_string : J → String → Result String
  extract_string j tag = do x ← extract j tag; l.get_string x

  abbrev pub extract_size : J → String → Result ℕ
  extract_size j tag = do x ← extract j tag; l.get_size x

-- The last field of a name.
abbrev pub last_field : {J : Type 0} → String → Dict String J → Option J → Option J
last_field k [] found = found
last_field k ((i, v) ∷ fields) found = last_field k fields (if i == k then some v else found)

module _ {J : Type 0} (l : JsonLib J) (laws : JsonLaws l) where
  -- What is written before is found, if nothing later is.
  At : J → String → Option J → Type 0
  At j k none = l.has j k ≡ false
  At j k (some v) = (l.at j k ≡ ok v) × (l.has j k ≡ true)

  At-set :
      (j : J) (k i : String) (v : J) (o : Option J)
      → laws.IsObject j
      → At j k o
      → At (l.set j i v) k (if i == k then some v else o)
  unfolding At
  At-set j k i v o w h = elim (Bool-cases (i == k)) [
    | inl y ↦ rw y (written (==_true i k y))
    | inr n ↦ rw n (kept n o h)
  ]
    where
      written : i ≡ k → At (l.set j i v) k (some v)
      written e =
          subst (λ x. At (l.set j i v) x (some v)) e (laws.at-set j i v w, laws.has-set j i v w)

      kept : (i == k) ≡ false → (found : Option J) → At j k found → At (l.set j i v) k found
      kept n none a = laws.has-set_other j i k v w n ∙ a
      kept n (some x) a =
          (laws.at-set_other j i k v w n ∙ a.0, laws.has-set_other j i k v w n ∙ a.1)

  write_all-At :
      (j : J) (fields : Dict String J) (k : String) (o : Option J)
      → laws.IsObject j
      → At j k o
      → At (write_all l j fields) k (last_field k fields o)
  unfolding write_all
  write_all-At j [] k o w h = h
  write_all-At j ((i, v) ∷ fields) k o w h =
      write_all-At (l.set j i v) fields k _ (laws.set-IsObject j i v w) (At-set j k i v o w h)

  pub at-object :
      (fields : Dict String J) (k : String) (v : J)
      → last_field k fields none ≡ some v
      → l.at (object l fields) k ≡ ok v
  unfolding object At
  at-object fields k v h =
      let found : At (object l fields) k (some v) =
        subst (At (object l fields) k) h
          (write_all-At l.null fields k none laws.null-IsObject (laws.has-null k)) in
      found.0

  pub extract-object :
      (fields : Dict String J) (k : String) (v : J)
      → last_field k fields none ≡ some v
      → extract l (object l fields) k ≡ ok v
  unfolding extract
  extract-object fields k v h = rw (extract, at-object fields k v h)

  pub has-object :
      (fields : Dict String J) (k : String)
      → last_field k fields none ≡ none
      → l.has (object l fields) k ≡ false
  unfolding object At
  has-object fields k h =
      subst (At (object l fields) k) h
        (write_all-At l.null fields k none laws.null-IsObject (laws.has-null k))

  pub has-field :
      (fields : Dict String J) (k : String) (v : J)
      → last_field k fields none ≡ some v
      → l.has (object l fields) k ≡ true
  unfolding object At
  has-field fields k v h =
      let found : At (object l fields) k (some v) =
        subst (At (object l fields) k) h
          (write_all-At l.null fields k none laws.null-IsObject (laws.has-null k)) in
      found.1
