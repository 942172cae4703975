-- ===== src/Client/Saved.antt =====
-- A blueprint that is compiled and then saved (core/client.cxx).
use Prim.Native.String.{◌++◌ as ◌++ˢ◌}
use mathlib.Core.List.{append_assoc}
use marinatb.Common.{ℕ, ◌∙◌, String, ◌≡◌, refl, some, List, [], ◌∷◌, ◌++◌, ok}
use marinatb.Platform.{JsonLib, JsonText, UuidLib}
use marinatb.Blueprint.Store.{Blueprint}
use marinatb.Json.Object.{object}
use marinatb.Json.Wholes.{of_blueprint}
use marinatb.Client.Machine.{Platform, returned, Session}
use marinatb.Client.Requests.{command}
use marinatb.Client.Compile.{
  variable, get_home, document_path, compile_src, found, bcc, read_source, save,
}

three_lines :
    (xs : List String) (x y z : String)
    → ((xs ++ x ∷ []) ++ y ∷ []) ++ z ∷ [] ≡ xs ++ x ∷ y ∷ z ∷ []
three_lines xs x y z =
    append_assoc (xs ++ x ∷ []) (y ∷ []) (z ∷ []) ∙ append_assoc xs (x ∷ []) (y ∷ z ∷ [])

module _ {J W : Type 0} (t : JsonText J) (l : JsonLib J) (m : Platform J W) (u : UuidLib) where
  -- What bcc prints about a blueprint.
  abbrev pub summary : Blueprint → List String
  summary bp =
      ("compiled blueprint " ++ˢ bp.name)
      ∷ found m bp.computers " computers"
      ∷ found m bp.networks " networks"
      ∷ []

  home_found :
      (home : String) (s : Session W)
      → m.getenv "HOME" ≡ some home
      → get_home m s ≡ (returned home, s)
  unfolding get_home variable
  home_found home s a = rw (get_home, variable, a) refl

  -- Where bcc compiles a blueprint, it writes its JSON to a file of that name, and save by this name
  -- sends the JSON as the source. The file reads as what was written, and the JSON is read back from its
  -- text.
  pub save-bcc :
      (src home pid : String) (dh : ℕ) (bp : Blueprint) (s : Session W) (compiled : Session W)
      (w : W)
      → m.getenv "HOME" ≡ some home
      → compile_src m src s ≡ (returned dh, compiled)
      → m.bp dh compiled.world ≡ (ok bp, w)
      → (let path = document_path m home bp.name in
          let text = m.dump_2 (of_blueprint l u bp) in
          m.read_file path (m.write_file path text w) ≡ some text)
      → t.parse (m.dump_2 (of_blueprint l u bp)) ≡ ok (of_blueprint l u bp)
      → (written : Session W) × (bcc m l u src s ≡ (returned tt, written))
        × (written.printed ≡ compiled.printed ++ summary bp)
        × (save t l m bp.name pid written
            ≡ command t l m "https://api/blueprint/save"
                (m.dump_2
                  (object l (("project", l.of_string pid) ∷ ("source", of_blueprint l u bp) ∷ [])))
                "failed to save blueprint"
                written)
  unfolding bcc save read_source
  save-bcc src home pid dh bp s compiled w a b c d e = (
    record {
      printed = compiled.printed ++ summary bp;
      complained = compiled.complained;
      world = m.write_file (document_path m home bp.name) (m.dump_2 (of_blueprint l u bp)) w;
    },
    rw (home_found home s a, b, c)
        (rw
          (three_lines compiled.printed ("compiled blueprint " ++ˢ bp.name)
            (found m bp.computers " computers") (found m bp.networks " networks"))
          refl),
    refl,
    rw (home_found home _ a, d, e) refl,
  )
