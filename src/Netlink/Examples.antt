-- ===== src/Netlink/Examples.antt =====
-- Two links in two buffers.
use marinatb.Common.{ℕ, String, ◌≡◌, refl, List, [], ◌∷◌, string_eq, nat_eq}
use marinatb.Netlink.{
  LinkMessage, ifla_address, ifla_ifname, found, missing, mac_2_ifname, scan, read_attributes,
  first_at, listing, joined, mac_2_ifname-first_at,
}
use marinatb.Ident.Mac.{hex2, octets, pick}

abbrev link : ℕ → String → LinkMessage
link b name = record {
  nlmsg_type = 16;
  ifi_type = 1;
  attributes = ifla_ifname name ∷ ifla_address 2 0 0 0 10 b ∷ [];
}

abbrev end : LinkMessage
end = record { nlmsg_type = 3; ifi_type = 0; attributes = [] }

abbrev buffers : List (List LinkMessage)
buffers = (link 1 "eth0" ∷ []) ∷ (link 173 "eth1" ∷ end ∷ []) ∷ []

second : mac_2_ifname "02:00:00:00:0a:ad" buffers ≡ found "eth1"
unfolding mac_2_ifname scan read_attributes hex2 octets pick
second = refl

-- The same address in capital letters is not found.
capitals : mac_2_ifname "02:00:00:00:0A:AD" buffers ≡ missing
unfolding mac_2_ifname scan read_attributes hex2 octets pick
capitals = refl

mac_2_ifname-first_at_example :
    mac_2_ifname "02:00:00:00:0a:ad" buffers
    ≡ first_at "02:00:00:00:0a:ad" (listing (joined buffers))
mac_2_ifname-first_at_example = mac_2_ifname-first_at "02:00:00:00:0a:ad" buffers
