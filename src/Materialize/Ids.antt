-- ===== src/Materialize/Ids.antt =====
-- class LinearIdCacheMap (core/util.hxx): a number for each key, counted up from 0.
use marinatb.Common.{
  ℕ, Bool, true, false, Option, none, some, List, [], ◌∷◌, Result, ok, err, out_of_range,
  runtime_error, Eq, add64,
}
use marinatb.Common.Dict
use marinatb.Common.Dict.{Dict}

pub record LinearIdCacheMap (K : Type 0) : Type 0 where
  pub v : ℕ
  pub m : Dict K ℕ

abbrev pub empty : {K : Type 0} → LinearIdCacheMap K
empty = record { v = 0; m = [] }

-- The map with `lk_`, which is one object that all calls share: whether it holds the mutex.
pub record Guarded (K : Type 0) : Type 0 where
  pub lk_ : Bool
  pub ids : LinearIdCacheMap K

abbrev pub unlocked : {K : Type 0} → LinearIdCacheMap K → Guarded K
unlocked c = record { lk_ = false; ids = c }

pub data Op (K : Type 0) : Type 0 where
  create_op get_op erase_op : K → Op K

-- Where a thread is in create, with what it has read of `v_`.
pub data Point : Type 0 where
  looking reading : Point
  counting storing finished : ℕ → Point

module _ {K : Type 0} ⦃e : Eq K⦄ where
  -- The part of create that holds the lock.
  unfoldable pub lookup : K → LinearIdCacheMap K → Option ℕ
  lookup k c = Dict.find k c.m

  -- The parts of m_[key] = v_++, which run without the lock: v_ is read, is written, and the entry is.
  unfoldable pub counted : ℕ → LinearIdCacheMap K → LinearIdCacheMap K
  counted n c = record c { v = add64 n 1 }

  unfoldable pub entered : K → ℕ → LinearIdCacheMap K → LinearIdCacheMap K
  entered k n c = record c { m = Dict.insert_or_assign k n c.m }

  -- The three of them with nothing between.
  unfoldable pub assign : K → LinearIdCacheMap K → ℕ × LinearIdCacheMap K
  unfolding counted entered
  assign k c = (c.v, entered k c.v (counted c.v c))

  -- create, get and erase where no other call runs and the lock is free
  unfoldable pub create : K → LinearIdCacheMap K → ℕ × LinearIdCacheMap K
  create k c = elim (lookup k c) [ none ↦ assign k c | some n ↦ (n, c) ]

  unfoldable pub erase : K → LinearIdCacheMap K → LinearIdCacheMap K
  erase k c = record c { m = Dict.erase k c.m }

  -- lk_.lock() before what a call does. What it throws where lk_ has the mutex already, a system_error,
  -- is a runtime_error.
  abbrev pub unless_held :
      {A : Type 0} → Bool → Result A × Guarded K → Guarded K → Result A × Guarded K
  unless_held true r g = (err runtime_error, g)
  unless_held false r g = r

  -- at, which throws while lk_ has the mutex: nothing gives it back.
  abbrev pub at_or_stuck : Option ℕ → Guarded K → Result ℕ × Guarded K
  at_or_stuck none g = (err out_of_range, record g { lk_ = true })
  at_or_stuck (some n) g = (ok n, g)

  unfoldable pub get : K → Guarded K → Result ℕ × Guarded K
  get k g = unless_held g.lk_ (at_or_stuck (Dict.find k g.ids.m) g) g

  -- A call that gives the lock back.
  unfoldable pub locked :
      {A : Type 0}
      → (LinearIdCacheMap K → A × LinearIdCacheMap K)
      → Guarded K
      → Result A × Guarded K
  locked f g = let r = f g.ids in unless_held g.lk_ (ok r.0, record g { ids = r.1 }) g

  abbrev pub erase_call : K → Guarded K → Result (Unit {0}) × Guarded K
  erase_call k = locked (λ c. (tt, erase k c))

  -- A call, and what the map is after it.
  unfoldable pub called : Op K → Guarded K → Guarded K
  unfolding locked
  called (create_op k) g = (locked (create k) g).1
  called (get_op k) g = (get k g).1
  called (erase_op k) g = (erase_call k g).1

  -- A run of calls that do not overlap.
  unfoldable pub run : List (Op K) → Guarded K → Guarded K
  run [] g = g
  run (op ∷ ops) g = run ops (called op g)

  abbrev pub looked : Option ℕ → LinearIdCacheMap K → Point × LinearIdCacheMap K
  looked none c = (reading, c)
  looked (some n) c = (finished n, c)

  -- One step of a thread in create.
  unfoldable pub advance : K → Point → LinearIdCacheMap K → Point × LinearIdCacheMap K
  advance k looking c = looked (lookup k c) c
  advance k reading c = (counting c.v, c)
  advance k (counting n) c = (storing n, counted n c)
  advance k (storing n) c = (finished n, entered k n c)
  advance k (finished n) c = (finished n, c)

  -- Two threads, each in create: false is a step of the first, and true of the second.
  unfoldable pub interleave :
      K → K → List Bool → Point × Point × LinearIdCacheMap K → Point × Point × LinearIdCacheMap K
  interleave k j [] s = s
  interleave k j (false ∷ turns) (a, b, c) =
      let next = advance k a c in interleave k j turns (next.0, b, next.1)
  interleave k j (true ∷ turns) (a, b, c) =
      let next = advance j b c in interleave k j turns (a, next.0, next.1)
