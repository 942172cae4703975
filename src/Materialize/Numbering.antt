-- ===== src/Materialize/Numbering.antt =====
-- What a LinearIdCacheMap promises (core/util.hxx): a numbering of keys, in which numbers are given and
-- taken back, and no number is given that another key has, until get is asked for a key without one.
use marinatb.Common.{
  ℕ, ◌≡◌, ◌≢◌, Bool, true, false, none, some, Option, List, [], ◌∷◌, Eq, ◌==◌, if◌then◌else◌,
}
use marinatb.Common.Dict
use marinatb.Materialize.Ids.{LinearIdCacheMap, Guarded, Op, create_op, get_op, erase_op}

-- Whether the lock is held for ever, and the numbers of the keys.
abbrev pub Numbering : Type 0 → Type 0
Numbering K = Bool × (K → Option ℕ)

module _ {K : Type 0} ⦃e : Eq K⦄ where
  -- One call on a numbering.
  pub data Step : Numbering K → Op K → Numbering K → Type 0 where
    refused : (f : K → Option ℕ) (op : Op K) → Step (true, f) op (true, f)
    kept :
        (f : K → Option ℕ) (k : K) (n : ℕ) → f k ≡ some n → Step (false, f) (create_op k) (false, f)
    given :
        (f g : K → Option ℕ) (k : K) (n : ℕ)
        → f k ≡ none
        → ((j : K) → f j ≢ some n)
        → ((j : K) → g j ≡ (if k == j then some n else f j))
        → Step (false, f) (create_op k) (false, g)
    told : (f : K → Option ℕ) (k : K) (n : ℕ) → f k ≡ some n → Step (false, f) (get_op k) (false, f)
    stuck : (f : K → Option ℕ) (k : K) → f k ≡ none → Step (false, f) (get_op k) (true, f)
    taken :
        (f g : K → Option ℕ) (k : K)
        → ((j : K) → g j ≡ (if k == j then none else f j))
        → Step (false, f) (erase_op k) (false, g)

  pub data Steps : Numbering K → List (Op K) → Numbering K → Type 0 where
    done : (f : Numbering K) → Steps f [] f
    next :
        {f g h : Numbering K} {op : Op K} {ops : List (Op K)}
        → Step f op g
        → Steps g ops h
        → Steps f (op ∷ ops) h

  abbrev numbers : LinearIdCacheMap K → K → Option ℕ
  numbers c k = Dict.find k c.m

  -- The numbering that a map holds.
  abbrev pub numbering : Guarded K → Numbering K
  numbering g = (g.lk_, numbers g.ids)
