-- ===== src/Platform.antt =====
-- What the program takes from outside the repository: the arithmetic of `double`, the hash of a
-- string and the order that std::sort gives to elements that compare alike, the pipes library
-- (3p/pipes), and the byte order of the host.
use marinatb.Common.{
  any, not, err, runtime_error, ℕ, ◌^◌, ◌<◌, ◌≡◌, String, Bool, true, false, Option, some, List,
  ◌∷◌, map, sum64, Result, ok, ◌==◌, string_eq,
}
use mathlib.Core.List.{Permᴰ, filter_map}

-- The operations on `double` that the code uses. No law of them is assumed here.
pub record Double (F : Type 0) : Type 0 where
  pub of_nat : ℕ → F
  pub add : F → F → F
  pub sub : F → F → F
  pub mul : F → F → F
  pub div : F → F → F
  pub fabs : F → F
  pub lt : F → F → Bool
  pub epsilon : F

-- pipes: `xs | map<vector>(f)`, `xs | collect(f)`, `xs | sort(lt)`, `xs | reduce(plus)`.
pub record Pipes (F : Type 0) : Type 1 where
  pub map : {A B : Type 0} → (A → B) → List A → List B
  pub collect : {A B : Type 0} → (A → Option B) → List A → List B
  pub sort : {A : Type 0} → (A → A → Bool) → List A → List A
  pub reduce_sizes : List ℕ → ℕ
  pub reduce_doubles : List F → F

pub record PipesLaws {F : Type 0} (p : Pipes F) : Type 1 where
  pub map_law : {A B : Type 0} (f : A → B) (xs : List A) → p.map f xs ≡ map f xs
  pub collect_law :
      {A B : Type 0} (f : A → Option B) (xs : List A) → p.collect f xs ≡ filter_map f xs
  pub sort_law : {A : Type 0} (before : A → A → Bool) (xs : List A) → Permᴰ xs (p.sort before xs)
  pub reduce_law : (xs : List ℕ) → p.reduce_sizes xs ≡ sum64 xs

-- The standard library where the standard leaves a choice.
pub record Std : Type 1 where
  pub hash : String → ℕ
  pub sort : {A : Type 0} → (A → A → Bool) → List A → List A

pub record StdLaws (s : Std) : Type 1 where
  pub sort_law : {A : Type 0} (before : A → A → Bool) (xs : List A) → Permᴰ xs (s.sort before xs)

-- <arpa/inet.h>: between the byte order of the host and that of the network, and from a dotted
-- address to its number in network order.
pub record Inet : Type 0 where
  pub htonl : ℕ → ℕ
  pub ntohl : ℕ → ℕ
  pub pton : String → Option ℕ

pub record InetLaws (o : Inet) : Type 0 where
  pub ntohl-htonl : (x : ℕ) → x < 2 ^ 32 → o.ntohl (o.htonl x) ≡ x
  pub htonl-ntohl : (x : ℕ) → x < 2 ^ 32 → o.htonl (o.ntohl x) ≡ x
  pub ntohl-lt : (x : ℕ) → x < 2 ^ 32 → o.ntohl x < 2 ^ 32
  pub htonl-lt : (x : ℕ) → x < 2 ^ 32 → o.htonl x < 2 ^ 32

-- nlohmann::json: a null value, `j[k] = v`, `at`, whether `find` finds a key, the conversions between
-- a value and a string, a size or a vector, the range of a for loop, and `dump`.
pub record JsonLib (J : Type 0) : Type 0 where
  pub null : J
  pub set : J → String → J → J
  pub at : J → String → Result J
  pub has : J → String → Bool
  pub of_string : String → J
  pub get_string : J → Result String
  pub of_size : ℕ → J
  pub get_size : J → Result ℕ
  pub of_array : List J → J
  pub get_array : J → Result (List J)
  pub elements : J → List J
  pub at_index : J → ℕ → Result J
  pub dump : J → String

-- `IsObject` holds of a value that is null or an object, on which `j[k] = v` is a write of one key.
pub record JsonLaws {J : Type 0} (l : JsonLib J) : Type 1 where
  pub IsObject : J → Type 0
  pub null-IsObject : IsObject l.null
  pub set-IsObject : (j : J) (k : String) (v : J) → IsObject j → IsObject (l.set j k v)
  pub at-set : (j : J) (k : String) (v : J) → IsObject j → l.at (l.set j k v) k ≡ ok v
  pub at-set_other :
      (j : J) (k i : String) (v : J)
      → IsObject j
      → (k == i) ≡ false
      → l.at (l.set j k v) i ≡ l.at j i
  pub has-null : (k : String) → l.has l.null k ≡ false
  pub has-set : (j : J) (k : String) (v : J) → IsObject j → l.has (l.set j k v) k ≡ true
  pub has-set_other :
      (j : J) (k i : String) (v : J)
      → IsObject j
      → (k == i) ≡ false
      → l.has (l.set j k v) i ≡ l.has j i
  pub get_string-of_string : (t : String) → l.get_string (l.of_string t) ≡ ok t
  pub get_size-of_size : (n : ℕ) → n < 2 ^ 64 → l.get_size (l.of_size n) ≡ ok n
  pub get_array-of_array : (js : List J) → l.get_array (l.of_array js) ≡ ok js
  pub elements-of_array : (js : List J) → l.elements (l.of_array js) ≡ js
  pub at_index-first : (x : J) (js : List J) → l.at_index (l.of_array (x ∷ js)) 0 ≡ ok x
  pub at_index-second : (x y : J) (js : List J) → l.at_index (l.of_array (x ∷ y ∷ js)) 1 ≡ ok y

-- libuuid: uuid_unparse, and uuid_parse, which may fail. An id is the number of its 16 bytes.
pub record UuidLib : Type 0 where
  pub unparse : ℕ → String
  pub parse : String → Option ℕ

pub record UuidLaws (u : UuidLib) : Type 0 where
  pub parse-unparse : (id : ℕ) → id < 2 ^ 128 → u.parse (u.unparse id) ≡ some id

-- fmt::format: from the names that a text asks for and those that are supplied, whether it throws.
pub record Fmt : Type 0 where
  pub named : List String → List String → Result (Unit {0})

-- A name that is asked for and not supplied.
abbrev pub lacks : List String → List String → Bool
lacks asked supplied = any (λ a. not (any (λ b. a == b) supplied)) asked

pub record FmtLaws (fmt : Fmt) : Type 0 where
  -- fmt::format_error, a runtime_error
  pub named-lacks :
      (asked supplied : List String)
      → lacks asked supplied ≡ true
      → fmt.named asked supplied ≡ err runtime_error

-- nlohmann::json: parse, which throws where the text is no JSON.
pub record JsonText (J : Type 0) : Type 0 where
  pub parse : String → Result J

-- libpq: PQexec on a database, with PQresultStatus and the first values of the rows of the result.
pub data PgStatus : Type 0 where
  tuples_ok command_ok failed : PgStatus

pub record PgResult : Type 0 where
  pub status : PgStatus
  pub rows : List String

pub record PqLib (S : Type 0) : Type 0 where
  pub exec : String → S → PgResult × S
