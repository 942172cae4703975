-- ===== src/HostControl/Terminate.antt =====
-- delXpDir, terminateComputers and terminateNetworks (core/host-control.cxx).
use marinatb.Common.{String, List, [], ◌∷◌, string_eq, nat_eq}
use marinatb.Common.Dict.{Dict}
use marinatb.Platform.{Pipes, UuidLib}
use marinatb.Ident.{Uuid}
use marinatb.Blueprint.Interface.{Interface}
use marinatb.Blueprint.Network.{Network}
use marinatb.Blueprint.Computer.{Computer}
use marinatb.Blueprint.Store.{Blueprint}
use marinatb.Blueprint.Graph.{connected_computers}
use marinatb.Materialize.Ids
use marinatb.HostControl.Command.{remove_dir, kill_machine, del_bridge}
use marinatb.HostControl.Shell.{Done, Shell, pure, lift, ◌>>=◌, Replies, attempt, must}
use marinatb.HostControl.Guest.{xpdir}
use marinatb.HostControl.Launch.{control_mac, get_bridge}

-- qkId.erase, vhostId.erase and bridgeId.erase
abbrev pub erase_qk : String → Shell Done
erase_qk mac s = let r = Ids.erase_call mac s.qk_id in (r.0, record s { qk_id = r.1 })

abbrev pub erase_vhost : String → Shell Done
erase_vhost mac s = let r = Ids.erase_call mac s.vhost_id in (r.0, record s { vhost_id = r.1 })

abbrev pub erase_bridge : Uuid → Shell Done
erase_bridge id s = let r = Ids.erase_call id s.bridge_id in (r.0, record s { bridge_id = r.1 })

unfoldable pub erase_ports : List (Computer × Interface) → Shell Done
erase_ports [] = pure tt
erase_ports ((_, i) ∷ rest) = do _ ← erase_vhost i.mac; erase_ports rest

module _ (u : UuidLib) (reply : Replies) where
  unfoldable pub del_xp_dir : Blueprint → Shell Done
  del_xp_dir bp = attempt reply (remove_dir (xpdir u bp))

  unfoldable pub terminate_all : Blueprint → Dict Uuid Computer → Shell Done
  terminate_all bp [] = pure tt
  terminate_all bp ((_, c) ∷ rest) = do
    _ ← must reply (kill_machine (xpdir u bp) c.name)
    cifx ← lift (control_mac c)
    _ ← erase_qk cifx
    terminate_all bp rest

  unfoldable pub terminate_computers : Blueprint → Shell Done
  terminate_computers bp = terminate_all bp bp.computers

module _ {F : Type 0} (p : Pipes F) (reply : Replies) where
  unfoldable pub terminate_all_networks : Blueprint → Dict Uuid Network → Shell Done
  terminate_all_networks bp [] = pure tt
  terminate_all_networks bp ((_, n) ∷ rest) = do
    bridge ← get_bridge n.id
    _ ← must reply (del_bridge bridge)
    _ ← erase_bridge n.id
    members ← lift (connected_computers p bp n)
    _ ← erase_ports members
    terminate_all_networks bp rest

  unfoldable pub terminate_networks : Blueprint → Shell Done
  terminate_networks bp = terminate_all_networks bp bp.networks
