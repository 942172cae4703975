-- ===== src/MaterializationService/Info.antt =====
-- The JSON of InterfaceMzInfo and ComputerMzInfo (core/materialization.cxx).
use marinatb.Common.{
  String, ◌≡◌, refl, ap, ◌∙◌, sym, none, List, [], ◌∷◌, ◌++◌, map, All, Result, ok, err, undefined,
  ◌>>=◌, ◌==◌, string_eq, if◌then◌else◌,
}
use marinatb.Common.Dict
use marinatb.Common.Dict.{Dict, Unique, find}
use mathlib.Core.List.{append_assoc, append-nil}
use marinatb.Platform.{JsonLib, JsonLaws}
use marinatb.Ip.{IpV4Address}
use marinatb.Json.Object.{object, extract, extract_string, extract-object}
use marinatb.Json.Values.{of_address, to_address}
use marinatb.Json.ValueLaws.{IsAddress, address-read, string-object}
use marinatb.Json.ListLaws.{apart, absent_later}
use marinatb.Materialize.Construct.{ComputerMzInfo, LaunchState, queued, launching, up}

unfoldable pub state_word : LaunchState → String
state_word LaunchState.none = "none"
state_word queued = "queued"
state_word launching = "launching"
state_word up = "up"

-- For another word the member keeps the value that it was not given, which may not be read.
unfoldable pub parse_state : String → Result LaunchState
parse_state word =
    if word == "none"
    then ok LaunchState.none
    else if word == "queued"
    then ok queued
    else if word == "launching"
    then ok launching
    else if word == "up"
    then ok up
    else err undefined

module _ {J : Type 0} (l : JsonLib J) where
  unfoldable pub of_interface_info : IpV4Address → J
  of_interface_info a = object l (("ipv4", of_address l a) ∷ [])

  unfoldable pub to_interface_info : J → Result IpV4Address
  to_interface_info j = do a ← extract l j "ipv4"; to_address l a

  unfoldable pub of_entry : String × IpV4Address → J
  of_entry e = object l (("id", l.of_string e.0) ∷ ("info", of_interface_info e.1) ∷ [])

  unfoldable pub of_info : ComputerMzInfo → J
  of_info z = object l (
      ("launch-state", l.of_string (state_word z.launch_state))
      ∷ ("interfaces", l.of_array (map of_entry z.interfaces))
      ∷ [])

  unfoldable pub read_entries : List J → Dict String IpV4Address → Result (Dict String IpV4Address)
  read_entries [] m = ok m
  read_entries (j ∷ js) m = do
    id ← extract_string l j "id"
    info_j ← extract l j "info"
    info ← to_interface_info info_j
    read_entries js (Dict.insert_or_assign id info m)

  unfoldable pub to_info : J → Result ComputerMzInfo
  to_info j = do
    word ← extract_string l j "launch-state"
    launch_state ← parse_state word
    ifx ← extract l j "interfaces"
    interfaces ← read_entries (l.elements ifx) []
    ok (record { launch_state = launch_state; interfaces = interfaces })

parse_state-state_word : (x : LaunchState) → parse_state (state_word x) ≡ ok x
unfolding parse_state state_word
parse_state-state_word LaunchState.none = refl
parse_state-state_word queued = refl
parse_state-state_word launching = refl
parse_state-state_word up = refl

module _ {J : Type 0} (l : JsonLib J) (laws : JsonLaws l) where
  interface_info-read :
      (a : IpV4Address) → IsAddress a → to_interface_info l (of_interface_info l a) ≡ ok a
  unfolding to_interface_info of_interface_info
  interface_info-read a h =
      rw (extract-object l laws _ "ipv4" (of_address l a) refl) (address-read l laws a h)

  read_entries-append :
      (rest m : Dict String IpV4Address)
      → All (λ e. IsAddress e.1) rest
      → All (λ e. find e.0 m ≡ none) rest
      → Unique rest
      → read_entries l (map (of_entry l) rest) m ≡ ok (m ++ rest)
  unfolding read_entries of_entry
  read_entries-append [] m h a u = ap ok (sym (append-nil m))
  read_entries-append ((k, x) ∷ rest) m h a u =
      let later = absent_later k x m rest a.1 (apart k rest u.0) in
      rw
        (
          string-object l laws _ "id" k refl,
          extract-object l laws _ "info" (of_interface_info l x) refl,
          interface_info-read x h.0,
          Dict.insert_or_assign-absent k x m a.0,
        )
        (read_entries-append rest (m ++ (k, x) ∷ []) h.1 later u.1
          ∙ ap ok (append_assoc m ((k, x) ∷ []) rest))

  absent_first : (m : Dict String IpV4Address) → All (λ e. find {V = IpV4Address} e.0 [] ≡ none) m
  unfolding find
  absent_first [] = tt
  absent_first (e ∷ m) = (refl, absent_first m)

  -- What the service knows of a computer is read back from its JSON, if its addresses are 32-bit words
  -- and no interface stands twice in the map.
  pub to_info-of_info :
      (z : ComputerMzInfo)
      → All (λ e. IsAddress e.1) z.interfaces
      → Unique z.interfaces
      → to_info l (of_info l z) ≡ ok z
  unfolding to_info of_info
  to_info-of_info z h u =
      rw
        (
          string-object l laws _ "launch-state" (state_word z.launch_state) refl,
          parse_state-state_word z.launch_state,
          extract-object l laws _ "interfaces" (l.of_array (map (of_entry l) z.interfaces)) refl,
          laws.elements-of_array (map (of_entry l) z.interfaces),
          read_entries-append z.interfaces [] h (absent_first z.interfaces) u,
        )
        refl
