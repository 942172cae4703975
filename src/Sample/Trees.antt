-- ===== src/Sample/Trees.antt =====
-- A JSON library and ids as concrete parameters.
use marinatb.Common.{
  ℕ, zero, suc, ◌≡◌, refl, String, Bool, true, false, some, List, [], ◌∷◌, Result, ok, err,
  domain_error, out_of_range, ◌==◌, string_eq, ==_refl, ==_true, subst, sym, if◌then◌else◌, ap,
  Bool-cases, inl, inr,
}
use marinatb.Platform.{JsonLib, JsonLaws, UuidLib, UuidLaws}

-- A value; an array is a chain of items, and an object a chain of fields that ends in null.
pub data Tree : Type 0 where
  null no_items : Tree
  text : String → Tree
  number : ℕ → Tree
  item : Tree → Tree → Tree
  field : String → Tree → Tree → Tree

abbrev write : Tree → String → Tree → Tree
write (field i w rest) k v = if i == k then field i v rest else field i w (write rest k v)
write _ k v = field k v null

abbrev read : Tree → String → Result Tree
read (field i w rest) k = if i == k then ok w else read rest k
read _ k = err domain_error

abbrev holds : Tree → String → Bool
holds (field i w rest) k = if i == k then true else holds rest k
holds _ k = false

abbrev array : List Tree → Tree
array [] = no_items
array (x ∷ xs) = item x (array xs)

abbrev items : Tree → List Tree
items (item x rest) = x ∷ items rest
items _ = []

abbrev text_of : Tree → Result String
text_of (text t) = ok t
text_of _ = err domain_error

abbrev number_of : Tree → Result ℕ
number_of (number n) = ok n
number_of _ = err domain_error

abbrev nth : List Tree → ℕ → Result Tree
nth [] n = err out_of_range
nth (x ∷ xs) zero = ok x
nth (x ∷ xs) (suc n) = nth xs n

abbrev pub trees : JsonLib Tree
trees = record {
  null = null;
  set = write;
  at = read;
  has = holds;
  of_string = text;
  get_string = text_of;
  of_size = number;
  get_size = number_of;
  of_array = array;
  get_array = λ j. ok (items j);
  elements = items;
  at_index = λ j n. nth (items j) n;
  dump = λ j. "";
}

read-write : (j : Tree) (k : String) (v : Tree) → read (write j k v) k ≡ ok v
read-write (field i w rest) k v = elim (Bool-cases (i == k)) [
  | inl y ↦ rw (y, y)
  | inr n ↦ rw (n, n) (read-write rest k v)
]
read-write _ k v = rw (==_refl k)

read-write_other :
    (j : Tree) (k i : String) (v : Tree) → (k == i) ≡ false → read (write j k v) i ≡ read j i
read-write_other (field h w rest) k i v n = elim (Bool-cases (h == k)) [
  | inl y ↦
      let same : h ≡ k = ==_true h k y in
      let off : (h == i) ≡ false = subst (λ x. (x == i) ≡ false) (sym same) n in rw (y, off)
  | inr m ↦ rw m (ap (λ r. if h == i then ok w else r) (read-write_other rest k i v n))
]
read-write_other _ k i v n = rw n

holds-write : (j : Tree) (k : String) (v : Tree) → holds (write j k v) k ≡ true
holds-write (field i w rest) k v = elim (Bool-cases (i == k)) [
  | inl y ↦ rw (y, y)
  | inr n ↦ rw (n, n) (holds-write rest k v)
]
holds-write _ k v = rw (==_refl k)

holds-write_other :
    (j : Tree) (k i : String) (v : Tree) → (k == i) ≡ false → holds (write j k v) i ≡ holds j i
holds-write_other (field h w rest) k i v n = elim (Bool-cases (h == k)) [
  | inl y ↦
      let same : h ≡ k = ==_true h k y in
      let off : (h == i) ≡ false = subst (λ x. (x == i) ≡ false) (sym same) n in rw (y, off)
  | inr m ↦ rw m (ap (λ r. if h == i then true else r) (holds-write_other rest k i v n))
]
holds-write_other _ k i v n = rw n

items-array : (js : List Tree) → items (array js) ≡ js
items-array [] = refl
items-array (x ∷ js) = ap (◌∷◌ x) (items-array js)

pub trees-laws : JsonLaws trees
trees-laws = record {
  IsObject = λ j. Unit;
  null-IsObject = tt;
  set-IsObject = λ j k v h. tt;
  at-set = λ j k v h. read-write j k v;
  at-set_other = λ j k i v h n. read-write_other j k i v n;
  has-null = λ k. refl;
  has-set = λ j k v h. holds-write j k v;
  has-set_other = λ j k i v h n. holds-write_other j k i v n;
  get_string-of_string = λ t. refl;
  get_size-of_size = λ n h. refl;
  get_array-of_array = λ js. ap ok (items-array js);
  elements-of_array = λ js. items-array js;
  at_index-first = λ x js. refl;
  at_index-second = λ x y js. refl;
}

-- An id as a text of as many characters.
abbrev strokes : ℕ → String
strokes zero = String.[]
strokes (suc n) = String.◌∷◌ "i" (strokes n)

abbrev count : String → ℕ
count String.[] = 0
count (String.◌∷◌ c t) = suc (count t)

count-strokes : (n : ℕ) → count (strokes n) ≡ n
count-strokes zero = refl
count-strokes (suc n) = ap suc (count-strokes n)

abbrev pub unary : UuidLib
unary = record { unparse = strokes; parse = λ t. some (count t) }

pub unary-laws : UuidLaws unary
unary-laws = record { parse-unparse = λ n h. ap some (count-strokes n) }
