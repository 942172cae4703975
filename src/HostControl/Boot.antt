-- ===== src/HostControl/Boot.antt =====
-- initOvs and initQemuKvm (core/host-control.cxx).
use marinatb.Common.{String}
use marinatb.HostControl.Command.{
  stop_ovs, wipe_ovs_config, wipe_ovs_run, start_ovs, add_physical_bridge, add_dpdk_port,
  add_physical_address, raise_physical_bridge, flush_iptables, kill_qemu,
}
use marinatb.HostControl.Shell.{Done, Shell, ◌>>=◌, Replies, exec, attempt, must}

module _ (reply : Replies) where
  -- The arguments are the flags pbr_mac and pbr_addr.
  unfoldable pub init_ovs : String → String → Shell Done
  init_ovs pbr_mac pbr_addr = do
    _ ← exec reply stop_ovs
    _ ← exec reply wipe_ovs_config
    _ ← exec reply wipe_ovs_run
    _ ← must reply start_ovs
    _ ← must reply (add_physical_bridge pbr_mac)
    _ ← must reply add_dpdk_port
    _ ← must reply (add_physical_address pbr_addr)
    _ ← must reply raise_physical_bridge
    must reply flush_iptables

  unfoldable pub init_qemu_kvm : Shell Done
  init_qemu_kvm = attempt reply kill_qemu

  -- main, before it serves requests
  unfoldable pub start : String → String → Shell Done
  start pbr_mac pbr_addr = do _ ← init_qemu_kvm; init_ovs pbr_mac pbr_addr
