-- ===== src/Embed/Unembed.antt =====
-- unembed (core/embed.cxx).
use marinatb.Common.{List, [], ◌∷◌, Result, ok, ◌>>=◌, nat_eq}
use marinatb.Common.Dict
use marinatb.Common.Dict.{Dict}
use marinatb.Ident.{Uuid}
use marinatb.Blueprint.Network.{Network}
use marinatb.Blueprint.Computer.{Computer}
use marinatb.Blueprint.Store.{Blueprint}
use marinatb.Topo.Host
use marinatb.Embed.Load.{drop_machine}
use marinatb.Embed.Chart.{EChart, SwitchEmbedding, get_embedding, get_network_embedding}

unfoldable pub unembed_computer : EChart → Computer → Result EChart
unembed_computer ec c = do
  he ← get_embedding ec c
  ok (record ec { hmap = Dict.insert_or_assign (Host.id he.host) (drop_machine he c) ec.hmap })

unfoldable pub unembed_computers : Dict Uuid Computer → EChart → Result EChart
unembed_computers [] ec = ok ec
unembed_computers ((_, c) ∷ m) ec = do ec' ← unembed_computer ec c; unembed_computers m ec'

unfoldable pub drop_network : Network → List SwitchEmbedding → EChart → EChart
drop_network n [] ec = ec
drop_network n (se ∷ ses) ec = drop_network n ses (record ec {
  smap =
      Dict.insert_or_assign se.sw.id (record se { networks = Dict.erase n.id se.networks }) ec.smap;
})

unfoldable pub unembed_networks : Dict Uuid Network → EChart → EChart
unembed_networks [] ec = ec
unembed_networks ((_, n) ∷ m) ec =
    unembed_networks m (drop_network n (get_network_embedding ec n) ec)

unfoldable pub unembed : Blueprint → EChart → Result EChart
unembed bp ec = do ec' ← unembed_computers bp.computers ec; ok (unembed_networks bp.networks ec')
