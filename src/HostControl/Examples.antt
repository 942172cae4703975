-- ===== src/HostControl/Examples.antt =====
-- The host control on the sample blueprint.
use marinatb.Common.{
  none, some, ◌≡◌, ◌≢◌, refl, true, false, List, [], ◌∷◌, ok, err, runtime_error, string_eq,
  if◌then◌else◌, sequence, find_if,
}
use mathlib.Core.List.{filter_map}
use marinatb.Common.Dict
use marinatb.Platform.{Fmt, FmtLaws, lacks}
use marinatb.Blueprint.Computer.{get_interface_by_mac, has_mac}
use marinatb.Blueprint.Graph
use marinatb.Materialize.Ids
use marinatb.Json.Wholes.{of_blueprint}
use marinatb.Http.{Response, ok_status, dumped}
use marinatb.Sample.{plain_pipes, little_endian}
use marinatb.Sample.Trees.{trees, unary, Tree}
use marinatb.Sample.Site.{node_a, pair_blueprint}
use marinatb.Sample.Draws.{draws, pair_read}
use marinatb.Json.Object.{object}
use marinatb.HostControl.Command.{
  Command, Event, copy_libs, remove_dir, kill_machine, del_bridge, ran,
}
use marinatb.HostControl.Shell.{Machine, Replies, exec_fail, exec}
use marinatb.HostControl.Guest.{plop_linux_config, xpdir}
use marinatb.HostControl.Terminate.{
  terminate_computers, terminate_all, terminate_networks, terminate_all_networks, erase_ports,
  del_xp_dir,
}
use marinatb.HostControl.Released.{LetsGo, connected, mounted, orderly, plop_linux_config-releases}
use marinatb.HostControl.Unlaunched.{started, construct-launches_nothing}
use marinatb.HostControl.Freed.{Freed, destruct-frees}
use marinatb.HostControl.Service.{construct, destruct, dematerialize, finished}

plain_fmt : Fmt
plain_fmt = record {
  named = λ asked supplied. if lacks asked supplied then err runtime_error else ok tt;
}

plain_fmt-laws : FmtLaws plain_fmt
unfolding plain_fmt
plain_fmt-laws = record { named-lacks = λ asked supplied h. rw h refl }

-- Every command succeeds.
abbrev all_well : Replies
all_well log c = some 0

-- The copy of the libraries fails, and nothing else.
abbrev no_libs : Replies
no_libs log copy_libs = some 1
no_libs log c = some 0

no_libs-starts : (l : List Event) (c : Command) → no_libs l c ≢ none
no_libs-starts l copy_libs e = cc
no_libs-starts l c e = cc

no_libs-LetsGo : LetsGo no_libs
no_libs-LetsGo = (
  λ l n m e. let same : some 0 ≡ some n = e in cc,
  λ l n c m e. let same : some 0 ≡ some n = e in cc,
)

abbrev fresh : Machine
fresh = record {
  bridge_id = Ids.unlocked Ids.empty;
  qk_id = Ids.unlocked Ids.empty;
  vhost_id = Ids.unlocked Ids.empty;
  live_blueprints = [];
  log = [];
}

fresh-orderly : orderly fresh.log ≡ true
unfolding orderly
fresh-orderly = refl

plop_linux_config-releases_example :
    let l = (plop_linux_config no_libs node_a "/space/xp/1" "a.qcow2" fresh).1.log in
    (connected l ≡ false) × (mounted l ≡ false) × (orderly l ≡ true)
plop_linux_config-releases_example =
    plop_linux_config-releases no_libs no_libs-starts no_libs-LetsGo node_a "/space/xp/1" "a.qcow2"
      fresh fresh-orderly

construct-launches_nothing_example :
    let r =
      construct trees unary little_endian plain_pipes plain_fmt all_well "192.168.247.2" draws
        (of_blueprint trees unary pair_blueprint)
        fresh in
    (r.0.status ≡ ok_status) × (r.1 ≢ finished) × (started r.2.log ≡ started fresh.log)
construct-launches_nothing_example =
    construct-launches_nothing plain_pipes plain_fmt plain_fmt-laws all_well "192.168.247.2" trees
      unary little_endian draws (of_blueprint trees unary pair_blueprint) pair_blueprint fresh
      pair_read (λ e. cc)

-- The pair is up: its network is bridge 0, its computers have consoles 0 and 1 and two ports.
abbrev up : Machine
up = record {
  bridge_id = Ids.unlocked (record { v = 1; m = (10, 0) ∷ [] });
  qk_id = Ids.unlocked (record { v = 2; m = ("a0", 0) ∷ ("b0", 1) ∷ [] });
  vhost_id = Ids.unlocked (record { v = 2; m = ("a1", 0) ∷ ("b1", 1) ∷ [] });
  live_blueprints = (1, pair_blueprint) ∷ [];
  log = [];
}

abbrev down : Machine
down = record {
  bridge_id = Ids.unlocked (record { v = 1; m = [] });
  qk_id = Ids.unlocked (record { v = 2; m = [] });
  vhost_id = Ids.unlocked (record { v = 2; m = [] });
  live_blueprints = (1, pair_blueprint) ∷ [];
  log =
      ran (remove_dir (xpdir unary pair_blueprint)) 0
      ∷ ran (del_bridge 0) 0
      ∷ ran (kill_machine (xpdir unary pair_blueprint) "b") 0
      ∷ ran (kill_machine (xpdir unary pair_blueprint) "a") 0
      ∷ [];
}

abbrev done : Response Tree
done = record {
  status = ok_status;
  content = dumped (object trees (("status", trees.of_string "ok") ∷ []));
}

taken_down :
    destruct trees unary little_endian plain_pipes plain_fmt all_well "192.168.247.2" draws
      (of_blueprint trees unary pair_blueprint)
      up
    ≡ (ok done, down)
unfolding destruct dematerialize terminate_computers terminate_all terminate_networks
    terminate_all_networks erase_ports del_xp_dir exec exec_fail Ids.get Ids.locked Ids.erase
    Dict.find Dict.erase Graph.connected_computers Graph.neighbors Graph.facing Graph.computer_at
    get_interface_by_mac has_mac find_if sequence filter_map Graph.interface_of
taken_down = rw pair_read refl

destruct-frees_example : Freed pair_blueprint up down
destruct-frees_example =
    destruct-frees trees unary little_endian plain_pipes plain_fmt all_well "192.168.247.2" draws
      (of_blueprint trees unary pair_blueprint) pair_blueprint up down done pair_read taken_down
      refl
