-- ===== src/Client/Compile.antt =====
-- The commands of the client that compile and read sources (core/client.cxx).
use Prim.Native.String.{◌++◌ as ◌++ˢ◌}
use marinatb.Common.{ℕ, zero, suc, String, Option, none, some, [], ◌∷◌, length}
use marinatb.Platform.{JsonLib, JsonText, UuidLib}
use marinatb.Common.Dict.{Dict}
use marinatb.Json.Object.{object}
use marinatb.Json.Wholes.{of_blueprint, of_topology}
use marinatb.Database.Statement.{written}
use marinatb.Client.Machine.{Platform, returned, Done, Client, pure, lift, calls, ◌>>=◌, print}
use marinatb.Client.Requests.{give_up, command}

module _ {J W : Type 0} (m : Platform J W) where
  -- getenv, and exit(1) where the variable is not set
  unfoldable pub variable : String → String → Client W String
  variable name line = elim (m.getenv name) [ none ↦ give_up (line ∷ []) | some x ↦ pure x ]

  unfoldable pub get_home : Client W String
  get_home = variable "HOME" "are you lost? where is $HOME?"

  unfoldable pub library_path : String → String → String
  library_path home src = written (home ∷ "/.marina/cc/" ∷ m.basename src ∷ ".so" ∷ [])

  unfoldable pub document_path : String → String → String
  document_path home name = written (home ∷ "/.marina/cc/" ∷ name ∷ ".json" ∷ [])

  unfoldable pub compiler_text : String → String → String → String
  compiler_text mrsrc src out = written (
      "clang++ " ∷ "-stdlib=libc++ -std=c++14 -fPIC -shared " ∷ "-I" ∷ mrsrc
      ∷ " -I/usr/local/include/c++/v1 " ∷ "-L/usr/local/lib " ∷ src ∷ " " ∷ "-o " ∷ out ∷ [])

  -- if(cr.code != 0)
  unfoldable pub expect_compiled : String → ℕ × String → Client W Done
  expect_compiled src (zero, output) = pure tt
  expect_compiled src (suc n, output) = give_up (("failed to compile " ++ˢ src) ∷ output ∷ [])

  -- if(dh == nullptr)
  unfoldable pub expect_loaded : Option ℕ → Client W ℕ
  expect_loaded (some dh) s = (returned dh, s)
  expect_loaded none s = give_up ("error loading user model code" ∷ m.dlerror s.world ∷ []) s

  unfoldable pub compile_src : String → Client W ℕ
  compile_src src = do
    mrsrc ← variable "MARINA_SRC" "you must set the environment variable MARINA_SRC to use cc"
    home ← get_home
    _ ← calls (m.exec (written ("mkdir -p " ∷ home ∷ "/.marina/cc" ∷ [])))
    let lib = library_path home src
    cr ← calls (m.exec (compiler_text mrsrc src lib))
    _ ← expect_compiled src cr
    loaded ← λ s. (let (dh, w) = m.dlopen lib s.world in (returned dh, record s { world = w }))
    expect_loaded loaded

  abbrev pub found : {A B : Type 0} → Dict A B → String → String
  found members what = written ("found " ∷ m.decimal (length members) ∷ what ∷ [])

  -- ofs << text, to a file that is written anew
  abbrev pub write_document : String → String → Client W Done
  write_document path text s = (returned tt, record s { world = m.write_file path text s.world })

  module _ (l : JsonLib J) (u : UuidLib) where
    unfoldable pub bcc : String → Client W Done
    bcc src = do
      home ← get_home
      dh ← compile_src src
      bp ← calls (m.bp dh)
      _ ← print ("compiled blueprint " ++ˢ bp.name)
      _ ← print (found bp.computers " computers")
      _ ← print (found bp.networks " networks")
      write_document (document_path home bp.name) (m.dump_2 (of_blueprint l u bp))

    unfoldable pub tcc : String → Client W Done
    tcc source = do
      home ← get_home
      dh ← compile_src source
      tt' ← calls (m.topo dh)
      _ ← print ("compiled topology " ++ˢ tt'.name)
      _ ← print (found tt'.hosts " hosts")
      _ ← print (found tt'.switches " switches")
      write_document (document_path home tt'.name) (m.dump_2 (of_topology l u tt'))

  abbrev pub expect_source : String → Option String → Client W String
  expect_source id none = give_up (("could not open find blueprint " ++ˢ id) ∷ [])
  expect_source id (some ir_text) = pure ir_text

  unfoldable pub read_source : String → Client W String
  read_source id = do
    home ← get_home
    source ← λ s. (returned (m.read_file (document_path home id) s.world), s)
    expect_source id source

module _ {J W : Type 0} (t : JsonText J) (l : JsonLib J) (m : Platform J W) where
  unfoldable pub save : String → String → Client W Done
  save bid pid = do
    ir_text ← read_source m bid
    source ← lift (t.parse ir_text)
    let msg = object l (("project", l.of_string pid) ∷ ("source", source) ∷ [])
    command t l m "https://api/blueprint/save" (m.dump_2 msg) "failed to save blueprint"

  unfoldable pub topo : String → Client W Done
  topo tid = do
    src ← read_source m tid
    command t l m "https://api/materialization/topo" src "failed to set testbed topology"
