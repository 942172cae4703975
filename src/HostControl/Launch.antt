-- ===== src/HostControl/Launch.antt =====
-- launchVm, createNetworkBridge, createComputerPort, initXpDir, launchNetworks and launchComputers
-- (core/host-control.cxx).
use Prim.Native.String.{◌++◌}
use marinatb.Common.{
  none, some, ℕ, String, Bool, true, List, [], ◌∷◌, ◌==◌, string_eq, nat_eq, if◌then◌else◌, Result,
  ok, err, out_of_range, thrown_text, add64,
}
use marinatb.Common.Dict
use marinatb.Common.Dict.{Dict}
use marinatb.Platform.{Pipes, UuidLib, Fmt}
use marinatb.Units.Memory
use marinatb.Ident.{Uuid}
use marinatb.Blueprint.Interface.{Interface}
use marinatb.Blueprint.Network.{Network}
use marinatb.Blueprint.Computer.{Computer}
use marinatb.Blueprint.Store.{Blueprint}
use marinatb.Blueprint.Graph.{connected_computers}
use marinatb.Materialize.Ids
use marinatb.Materialize.Ids.{LinearIdCacheMap}
use marinatb.HostControl.Command.{
  create_image, start_qemu, add_bridge, add_vxlan, add_port, remove_dir, make_dir, wrote_blueprint,
}
use marinatb.HostControl.Shell.{Done, Shell, pure, throw, lift, ◌>>=◌, note, Replies, attempt, must}
use marinatb.HostControl.Guest.{xpdir, plop_linux_config}

-- isLinux(const Computer &)
abbrev pub is_linux : Computer → Bool
is_linux c = true

-- qkId.create, vhostId.create and bridgeId.create
abbrev pub create_qk : String → Shell ℕ
create_qk mac s = let r = Ids.locked (Ids.create mac) s.qk_id in (r.0, record s { qk_id = r.1 })

abbrev pub create_vhost : String → Shell ℕ
create_vhost mac s =
    let r = Ids.locked (Ids.create mac) s.vhost_id in (r.0, record s { vhost_id = r.1 })

abbrev pub create_bridge : Uuid → Shell ℕ
create_bridge id s =
    let r = Ids.locked (Ids.create id) s.bridge_id in (r.0, record s { bridge_id = r.1 })

-- vhostId.get and bridgeId.get
abbrev pub get_vhost : String → Shell ℕ
get_vhost mac s = let r = Ids.get mac s.vhost_id in (r.0, record s { vhost_id = r.1 })

abbrev pub get_bridge : Uuid → Shell ℕ
get_bridge id s = let r = Ids.get id s.bridge_id in (r.0, record s { bridge_id = r.1 })

-- `interfaces().at("cifx").mac()`
abbrev pub control_mac : Computer → Result String
control_mac c = elim (Dict.find "cifx" c.interfaces) [ none ↦ err out_of_range | some i ↦ ok i.mac ]

-- The loop over the interfaces: the block for each but the control interface, and the address of that.
-- `k` is the number of the next block.
unfoldable pub net_blocks :
    ℕ → String → Dict String Interface → Shell (List (ℕ × ℕ × String) × String)
net_blocks k ctlmac [] = pure ([], ctlmac)
net_blocks k ctlmac ((name, i) ∷ rest) = if name == "cifx" then net_blocks k i.mac rest else do
  vhid ← get_vhost i.mac
  r ← net_blocks (add64 k 1) ctlmac rest
  pure ((k, vhid, i.mac) ∷ r.0, r.1)

module _ (u : UuidLib) (reply : Replies) where
  unfoldable pub launch_vm : Computer → Blueprint → Shell Done
  launch_vm c bp = do
    cifx ← lift (control_mac c)
    qk_id ← create_qk cifx
    r ← net_blocks 0 "" c.interfaces
    let img = xpdir u bp ++ ("/" ++ (c.name ++ ".qcow2"))
    _ ← must reply (create_image ("/space/images/std/" ++ (c.os ++ ".qcow2")) img)
    _ ← if is_linux c then plop_linux_config reply c (xpdir u bp) img else throw thrown_text
    must reply (
        start_qemu (record {
          cores = c.cores;
          mem = Memory.megabytes c.memory;
          img = img;
          ctlmac = r.1;
          qkid = qk_id;
          netblk = r.0;
          xpdir = xpdir u bp;
          name = c.name;
        }))

  unfoldable pub init_xp_dir : Blueprint → Shell Done
  init_xp_dir bp = do
    _ ← attempt reply (remove_dir (xpdir u bp))
    _ ← must reply (make_dir (xpdir u bp))
    note (wrote_blueprint (xpdir u bp ++ "/blueprint") bp)

  unfoldable pub launch_all : Blueprint → Dict Uuid Computer → Shell Done
  launch_all bp [] = pure tt
  launch_all bp ((_, c) ∷ rest) = do _ ← launch_vm c bp; launch_all bp rest

  unfoldable pub launch_computers : Blueprint → Shell Done
  launch_computers bp = launch_all bp bp.computers

module _ {F : Type 0} (p : Pipes F) (fmt : Fmt) (reply : Replies) (remote_addr : String) where
  -- The second format call names `vni` in its text and does not supply it.
  unfoldable pub create_network_bridge : Network → Shell Done
  create_network_bridge n = do
    net_id ← create_bridge n.id
    _ ← must reply (add_bridge net_id)
    _ ← lift (fmt.named ("id" ∷ "vxid" ∷ "ip" ∷ "vni" ∷ []) ("id" ∷ "vxid" ∷ "ip" ∷ []))
    must reply (add_vxlan net_id remote_addr)

  unfoldable pub create_computer_port : Network → String → Shell Done
  create_computer_port n mac = do
    bridge ← get_bridge n.id
    vhost ← create_vhost mac
    must reply (add_port bridge vhost)

  unfoldable pub create_ports : Network → List (Computer × Interface) → Shell Done
  create_ports n [] = pure tt
  create_ports n ((_, i) ∷ rest) = do _ ← create_computer_port n i.mac; create_ports n rest

  unfoldable pub launch_all_networks : Blueprint → Dict Uuid Network → Shell Done
  launch_all_networks bp [] = pure tt
  launch_all_networks bp ((_, n) ∷ rest) = do
    _ ← create_network_bridge n
    members ← lift (connected_computers p bp n)
    _ ← create_ports n members
    launch_all_networks bp rest

  unfoldable pub launch_networks : Blueprint → Shell Done
  launch_networks bp = launch_all_networks bp bp.networks
