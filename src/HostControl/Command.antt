-- ===== src/HostControl/Command.antt =====
-- What host-control does to the machine that it runs on (core/host-control.cxx): one constructor for
-- each text that is given to `exec`, with the arguments that are formatted into it.
use marinatb.Common.{ℕ, String, List}
use marinatb.Ip.{IpV4Address}
use marinatb.Blueprint.Store.{Blueprint}

-- The arguments of qemu-system-x86_64 that are not constant.
pub record Vm : Type 0 where
  pub cores : ℕ
  pub mem : ℕ
  pub img : String
  pub ctlmac : String
  pub qkid : ℕ
  -- for each interface: its number, its vhost id and its address
  pub netblk : List (ℕ × ℕ × String)
  pub xpdir : String
  pub name : String

pub data Command : Type 0 where
  -- initOvs
  stop_ovs wipe_ovs_config wipe_ovs_run start_ovs : Command
  add_physical_bridge : String → Command
  add_dpdk_port : Command
  add_physical_address : String → Command
  raise_physical_bridge flush_iptables : Command
  -- initQemuKvm
  kill_qemu : Command
  -- plopLinuxConfig
  make_executable : String → Command
  load_nbd unmount disconnect_nbd : Command
  connect_nbd : String → Command
  mount_partition make_marina_dir : Command
  copy_script : String → Command
  copy_libs copy_bins : Command
  link_service : Command
  -- launchVm
  create_image : String → String → Command
  start_qemu : Vm → Command
  -- createNetworkBridge, createComputerPort
  add_bridge : ℕ → Command
  add_vxlan : ℕ → String → Command
  add_port : ℕ → ℕ → Command
  -- initXpDir, delXpDir
  remove_dir make_dir : String → Command
  -- terminateComputers, terminateNetworks
  kill_machine : String → String → Command
  del_bridge : ℕ → Command

-- A line of a file that is written.
pub data Line : Type 0 where
  blank : Line
  words : String → Line
  set_hostname : String → Line
  remark : String → Line
  -- of the device with this address
  raise_device ask_lease : String → Line
  give_address : IpV4Address → String → Line

pub data Event : Type 0 where
  -- a command and its exit code
  ran : Command → ℕ → Event
  wrote : String → List Line → Event
  -- the JSON of a blueprint
  wrote_blueprint : String → Blueprint → Event
