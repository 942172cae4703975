-- ===== src/Netlink.antt =====
-- mac_2_ifname (core/netlink.cxx) and the program mac2ifname (core/mac2ifname.cxx), over what the
-- kernel answers a request for the links of the host.
use Prim.Native.String.{◌++◌ as ◌++ˢ◌}
use marinatb.Common.{
  ℕ, String, Bool, true, false, ◌≡◌, refl, sym, ap, ◌∙◌, List, [], ◌∷◌, ◌++◌, Option, none, some,
  ◌==◌, nat_eq, string_eq, if◌then◌else◌, find_if, ◌&&◌, Bool-cases, inl, inr, arith,
}
use marinatb.Ident.Mac.{hex2, octets}
mod Examples

-- An attribute of a link. An Ethernet address has six bytes.
pub data Attribute : Type 0 where
  ifla_address : ℕ → ℕ → ℕ → ℕ → ℕ → ℕ → Attribute
  ifla_ifname : String → Attribute
  other_attribute : Attribute

pub record LinkMessage : Type 0 where
  pub nlmsg_type : ℕ
  pub ifi_type : ℕ
  pub attributes : List Attribute

abbrev nlmsg_done : ℕ
nlmsg_done = 3

-- RTM_BASE, which is RTM_NEWLINK
abbrev rtm_base : ℕ
rtm_base = 16

abbrev arphrd_ether : ℕ
arphrd_ether = 1

-- The name and the address that the loop over the attributes leaves behind.
unfoldable pub read_attributes : List Attribute → String × String → String × String
read_attributes [] found = found
read_attributes (ifla_address a b c d e f ∷ rest) (name, addr) =
    read_attributes rest (name, hex2 a ++ˢ octets (b ∷ c ∷ d ∷ e ∷ f ∷ []))
read_attributes (ifla_ifname x ∷ rest) (name, addr) = read_attributes rest (x, addr)
read_attributes (other_attribute ∷ rest) found = read_attributes rest found

-- How the loop over the messages of one buffer ends.
pub data Scan : Type 0 where
  next over : Scan
  hit : String → Scan

unfoldable pub scan : String → List LinkMessage → Scan
scan mac [] = next
scan mac (m ∷ ms) =
    let rest = scan mac ms in
    let link = read_attributes m.attributes ("", "") in
    if m.nlmsg_type == nlmsg_done
    then over
    else if m.nlmsg_type == rtm_base
    then (if m.ifi_type == arphrd_ether then (if mac == link.1 then hit link.0 else rest) else rest)
    else rest

-- A name, out_of_range, or recvmsg that waits where nothing more arrives.
pub data Search : Type 0 where
  found : String → Search
  missing waits : Search

-- The loop over the buffers that recvmsg fills.
unfoldable pub mac_2_ifname : String → List (List LinkMessage) → Search
mac_2_ifname mac [] = waits
mac_2_ifname mac (buffer ∷ buffers) = elim (scan mac buffer) [
  | hit name ↦ found name
  | over ↦ missing
  | next ↦ mac_2_ifname mac buffers
]

-- What mac2ifname prints to the two streams, and its exit code; none where it waits for ever.
pub record Printed : Type 0 where
  pub out : List String
  pub complaints : List String
  pub code : ℕ

unfoldable pub reported : String → Search → Option Printed
reported mac (found name) = some (record { out = name ∷ []; complaints = []; code = 0 })
reported mac missing =
    some (record { out = []; complaints = (mac ++ˢ " not found") ∷ []; code = 1 })
reported mac waits = none

unfoldable pub main : List String → List (List LinkMessage) → Option Printed
main (mac ∷ []) buffers = reported mac (mac_2_ifname mac buffers)
main args buffers =
    some (record { out = []; complaints = "usage: mac2ifname <mac>" ∷ []; code = 1 })

-- The messages before the end of the list, and whether there is an end.
unfoldable pub listing : List LinkMessage → List LinkMessage × Bool
listing [] = ([], false)
listing (m ∷ ms) =
    let rest = listing ms in if m.nlmsg_type == nlmsg_done then ([], true) else (m ∷ rest.0, rest.1)

-- An Ethernet link with this address.
unfoldable pub is_at : String → LinkMessage → Bool
is_at mac m =
    m.nlmsg_type == rtm_base
    && (m.ifi_type == arphrd_ether && mac == (read_attributes m.attributes ("", "")).1)

unfoldable pub first_at : String → List LinkMessage × Bool → Search
first_at mac (ms, ended) = elim (find_if (is_at mac) ms) [
  | some m ↦ found (read_attributes m.attributes ("", "")).0
  | none ↦ if ended then missing else waits
]

unfoldable pub joined : List (List LinkMessage) → List LinkMessage
joined [] = []
joined (buffer ∷ buffers) = buffer ++ joined buffers

-- What a buffer leaves to search.
abbrev and_then : Scan → Search → Search
and_then (hit name) rest = found name
and_then over rest = missing
and_then next rest = rest

first_at-there :
    (mac : String) (m : LinkMessage) (ms : List LinkMessage) (b : Bool)
    → is_at mac m ≡ true
    → first_at mac (m ∷ ms, b) ≡ found (read_attributes m.attributes ("", "")).0
unfolding first_at find_if
first_at-there mac m ms b h = rw (first_at, find_if, h) refl

first_at-away :
    (mac : String) (m : LinkMessage) (ms : List LinkMessage) (b : Bool)
    → is_at mac m ≡ false
    → first_at mac (m ∷ ms, b) ≡ first_at mac (ms, b)
unfolding first_at find_if
first_at-away mac m ms b h = rw (first_at, find_if, h) refl

-- A message that does not end the list is a hit or is passed over.
scan-cons :
    (mac : String) (m : LinkMessage) (ms : List LinkMessage)
    → (m.nlmsg_type == nlmsg_done) ≡ false
    → scan mac (m ∷ ms)
      ≡ (if is_at mac m then hit (read_attributes m.attributes ("", "")).0 else scan mac ms)
unfolding scan is_at
scan-cons mac m ms n = ground (arith, n)

scan-first_at :
    (mac : String) (ms later : List LinkMessage)
    → and_then (scan mac ms) (first_at mac (listing later)) ≡ first_at mac (listing (ms ++ later))
unfolding listing
scan-first_at mac [] later = unfold scan in refl
scan-first_at mac (m ∷ ms) later = elim (Bool-cases (m.nlmsg_type == nlmsg_done)) [
  | inl y ↦ rw y (unfold scan first_at find_if in rw y refl)
  | inr n ↦ elim (Bool-cases (is_at mac m)) [
    | inl there ↦ rw n (rw (scan-cons mac m ms n, there) (sym (first_at-there mac m _ _ there)))
    | inr away ↦ rw n (
        rw (scan-cons mac m ms n, away)
          (scan-first_at mac ms later ∙ sym (first_at-away mac m _ _ away)))
  ]
]

search_again :
    (mac : String) (s : Scan) (buffers : List (List LinkMessage))
    → elim s [ hit name ↦ found name | over ↦ missing | next ↦ mac_2_ifname mac buffers ]
      ≡ and_then s (mac_2_ifname mac buffers)
search_again mac (hit name) buffers = refl
search_again mac over buffers = refl
search_again mac next buffers = refl

-- mac_2_ifname returns the name of the first Ethernet link with this address before the end of the
-- list that the kernel sends, however the list is cut into buffers; where there is none it throws if
-- the list ends, and waits for ever if it does not.
pub mac_2_ifname-first_at :
    (mac : String) (buffers : List (List LinkMessage))
    → mac_2_ifname mac buffers ≡ first_at mac (listing (joined buffers))
unfolding mac_2_ifname joined listing first_at find_if
mac_2_ifname-first_at mac [] = refl
mac_2_ifname-first_at mac (buffer ∷ buffers) =
    search_again mac (scan mac buffer) buffers
    ∙ ap (and_then (scan mac buffer)) (mac_2_ifname-first_at mac buffers)
    ∙ scan-first_at mac buffer (joined buffers)
