-- ===== src/Sample.antt =====
-- Concrete parameters and test data: a site with one switch and two hosts, and a blueprint with one
-- network and two computers.
pub mod Site
pub mod Trees
pub mod Run
pub mod Draws
use Prim.Native.Char.{code}
use mathlib.Core.List.{filter_map, Permᴰ}
use mathlib.Core.List.Permᴰ
use marinatb.Common.{
  ℕ, suc, ◌==◌, string_eq, ◌+◌, ◌-◌, ◌*◌, ◌/◌, ◌%◌, ◌^◌, ◌<◌, ◌≡◌, refl, String, Bool, true, false,
  Option, none, some, List, [], ◌∷◌, map, ltb, sum64, if◌then◌else◌, arith, Bool-cases, inl, inr,
  Result, ok, err, length,
}
use marinatb.Platform.{Double, Pipes, PipesLaws, Std, StdLaws, Inet, InetLaws}

-- Numbers in thousandths stand for `double`.
abbrev pub thousandths : Double ℕ
thousandths = record {
  of_nat = λ n. n * 1000;
  add = λ a b. a + b;
  sub = λ a b. a - b;
  mul = λ a b. a * b / 1000;
  div = λ a b. a * 1000 / b;
  fabs = λ a. a;
  lt = ltb;
  epsilon = 1;
}

module _ {A : Type 0} (before : A → A → Bool) where
  abbrev pub insert_sorted : A → List A → List A
  insert_sorted a [] = a ∷ []
  insert_sorted a (x ∷ xs) = if before a x then a ∷ x ∷ xs else x ∷ insert_sorted a xs

  abbrev pub insertion_sort : List A → List A
  insertion_sort [] = []
  insertion_sort (x ∷ xs) = insert_sorted x (insertion_sort xs)

  insert_sorted-perm : (a : A) (xs : List A) → Permᴰ (a ∷ xs) (insert_sorted a xs)
  insert_sorted-perm a [] = Permᴰ.refl _
  insert_sorted-perm a (x ∷ xs) = elim (Bool-cases (before a x)) [
    | inl y ↦ rw y (Permᴰ.refl _)
    | inr n ↦ rw n (Permᴰ.trans (Permᴰ.swap refl refl) (Permᴰ.cons refl (insert_sorted-perm a xs)))
  ]

  insertion_sort-perm : (xs : List A) → Permᴰ xs (insertion_sort xs)
  insertion_sort-perm [] = Permᴰ.nil
  insertion_sort-perm (x ∷ xs) =
      Permᴰ.trans (Permᴰ.cons refl (insertion_sort-perm xs))
        (insert_sorted-perm x (insertion_sort xs))

abbrev pub plain_pipes : Pipes ℕ
plain_pipes = record {
  map = λ f xs. map f xs;
  collect = λ f xs. filter_map f xs;
  sort = λ before xs. insertion_sort before xs;
  reduce_sizes = sum64;
  reduce_doubles = sum64;
}

pub plain_pipes-laws : PipesLaws plain_pipes
plain_pipes-laws = record {
  map_law = λ f xs. refl;
  collect_law = λ f xs. refl;
  sort_law = λ before xs. insertion_sort-perm before xs;
  reduce_law = λ xs. refl;
}

-- A text of ASCII characters as a number, which differs for different texts.
abbrev number_of : String → ℕ
number_of String.[] = 0
number_of (String.◌∷◌ c s) = suc (code c) + 128 * number_of s

abbrev pub plain_std : Std
plain_std = record { hash = number_of; sort = λ before xs. insertion_sort before xs }

pub plain_std-laws : StdLaws plain_std
plain_std-laws = record { sort_law = λ before xs. insertion_sort-perm before xs }

-- A little-endian host.
abbrev swap_bytes : ℕ → ℕ
swap_bytes x =
    (x % 256) * 16777216 + (x / 256 % 256) * 65536 + (x / 65536 % 256) * 256 + x / 16777216 % 256

swap_bytes_twice : (x : ℕ) → x < 2 ^ 32 → swap_bytes (swap_bytes x) ≡ x
swap_bytes_twice x h = omega arith

swap_bytes-lt : (x : ℕ) → swap_bytes x < 2 ^ 32
swap_bytes-lt x = omega arith

-- The one text that it parses is the address space that a network begins with.
abbrev pub little_endian : Inet
little_endian = record {
  htonl = swap_bytes;
  ntohl = swap_bytes;
  pton = λ s. if s == "10.10.0.0" then some 2570 else none;
}

pub little_endian-laws : InetLaws little_endian
little_endian-laws = record {
  ntohl-htonl = swap_bytes_twice;
  htonl-ntohl = swap_bytes_twice;
  ntohl-lt = λ x h. swap_bytes-lt x;
  htonl-lt = λ x h. swap_bytes-lt x;
}
