-- ===== src/Topo/Examples.antt =====
-- The theorems about removal at the sample site.
use marinatb.Common.{◌≡◌, refl, ok, [], All, find_if, remove_if, arith}
use marinatb.Common.{◌≢◌, ◌↔◌, List}
use marinatb.Ident
use marinatb.Ident.{of_id}
use marinatb.Sample.{plain_std}
use marinatb.Topo.Switch.{Switch}
use marinatb.Topo.Connected.{connected_switches, connected_hosts}
use marinatb.Topo.Reach.{Found, connected_switches-defined_iff, connected_hosts-Found}
use marinatb.Sample.Site.{small_site, host_x, leaf}
use marinatb.Topo.Testbed.{remove_sw, remove_host, touches}
use marinatb.Topo.Removing.{LinkedByMac, remove_host-changes_nothing}

x_by_mac : LinkedByMac 21 small_site.links
x_by_mac = (
  (λ _ e. cc, λ e. absurd (omega arith)),
  ((λ e. absurd (omega arith), λ e. absurd (omega arith)), tt),
)

remove_host-changes_nothing_example : remove_host small_site "x" ≡ ok small_site
unfolding find_if
remove_host-changes_nothing_example =
    remove_host-changes_nothing small_site "x" 21 host_x refl x_by_mac

connected_switches-defined_iff_example :
    ((found : List Switch) × (connected_switches plain_std small_site host_x ≡ ok found))
    ↔ All (λ l. l.second.id ≢ 21) small_site.links
connected_switches-defined_iff_example = connected_switches-defined_iff plain_std small_site host_x

connected_hosts-Found_example :
    All
      (Found plain_std small_site.hosts (of_id 31) (connected_hosts plain_std small_site leaf))
      small_site.links
connected_hosts-Found_example = connected_hosts-Found plain_std small_site leaf

-- Removing the switch takes both links.
remove_leaf : remove_sw small_site "leaf" ≡ ok (record small_site { links = [] })
unfolding remove_sw find_if remove_if touches Ident.eq
remove_leaf = refl
