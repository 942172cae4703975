-- ===== src/HostControl/Guest.antt =====
-- xpdir and plopLinuxConfig (core/host-control.cxx).
use Prim.Native.String.{◌++◌}
use marinatb.Common.{String, List, [], ◌∷◌, ◌==◌, string_eq, if◌then◌else◌}
use marinatb.Common.Dict.{Dict}
use marinatb.Platform.{UuidLib}
use marinatb.Blueprint.Interface.{Interface}
use marinatb.Blueprint.Computer.{Computer}
use marinatb.Blueprint.Store.{Blueprint}
use marinatb.HostControl.Command.{
  make_executable, load_nbd, unmount, disconnect_nbd, connect_nbd, mount_partition, make_marina_dir,
  copy_script, copy_libs, copy_bins, link_service, Line, blank, words, set_hostname, remark,
  raise_device, ask_lease, give_address, wrote,
}
use marinatb.HostControl.Shell.{Done, Shell, ◌>>=◌, note, Replies, attempt, must, must_or}

unfoldable pub xpdir : UuidLib → Blueprint → String
xpdir u bp = "/space/xp/" ++ u.unparse bp.id

-- The lines for one interface, before those that follow.
unfoldable pub interface_lines : Interface → List Line → List Line
interface_lines i rest =
    if i.name == "cifx"
    then remark "control interface" ∷ raise_device i.mac ∷ ask_lease i.mac ∷ blank ∷ rest
    else remark i.name ∷ give_address i.einfo i.mac ∷ raise_device i.mac ∷ blank ∷ rest

unfoldable pub all_interface_lines : Dict String Interface → List Line
all_interface_lines [] = []
all_interface_lines ((_, i) ∷ rest) = interface_lines i (all_interface_lines rest)

unfoldable pub init_script : Computer → List Line
init_script c =
    words "#!/bin/bash"
    ∷ blank
    ∷ words "ldconfig"
    ∷ blank
    ∷ words "m2i=mac2ifname"
    ∷ blank
    ∷ set_hostname c.name
    ∷ blank
    ∷ all_interface_lines c.interfaces

abbrev pub service_lines : List Line
service_lines =
    words "[Unit]"
    ∷ words "Description=Init this computer as a part of a marinatb experiment"
    ∷ blank
    ∷ words "[Service]"
    ∷ words "Type=oneshot"
    ∷ words "ExecStart=/marina/init"
    ∷ blank
    ∷ words "[Install]"
    ∷ words "WantedBy=multi-user.target"
    ∷ blank
    ∷ []

abbrev pub script_path : String → Computer → String
script_path dst c = dst ++ ("/" ++ (c.name ++ "-netup"))

abbrev pub conf_path : String
conf_path = "/space/tmount/etc/ld.so.conf.d/local.conf"

abbrev pub service_path : String
service_path = "/space/tmount/lib/systemd/system/marina.service"

module _ (reply : Replies) where
  abbrev pub release : Shell Done
  release = do _ ← attempt reply unmount; attempt reply disconnect_nbd

  unfoldable pub plop_linux_config : Computer → String → String → Shell Done
  plop_linux_config c dst img = do
    let script = script_path dst c
    _ ← note (wrote script (init_script c))
    _ ← attempt reply (make_executable script)
    _ ← attempt reply load_nbd
    _ ← attempt reply unmount
    _ ← attempt reply disconnect_nbd
    _ ← must reply (connect_nbd img)
    _ ← must_or reply mount_partition (attempt reply disconnect_nbd)
    _ ← must_or reply make_marina_dir (release)
    _ ← must_or reply (copy_script script) (release)
    _ ← must_or reply copy_libs (release)
    _ ← must_or reply copy_bins (release)
    _ ← note (wrote conf_path (words "/usr/local/lib" ∷ []))
    _ ← note (wrote service_path service_lines)
    _ ← attempt reply link_service
    release
