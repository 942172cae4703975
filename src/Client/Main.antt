-- ===== src/Client/Main.antt =====
-- main of the client (core/client.cxx).
use marinatb.Common.{String, List, [], ◌∷◌, string_eq, ◌==◌, if◌then◌else◌}
use marinatb.Platform.{JsonLib, JsonText, UuidLib, Inet}
use marinatb.Json.Object.{Supply}
use marinatb.Database.Statement.{written}
use marinatb.Client.Machine.{Platform, Done, Client}
use marinatb.Client.Requests.{give_up, bps, mzs, rm, up, down, console, ssh, status, dump}
use marinatb.Client.Compile.{bcc, tcc, save, topo}

abbrev comment_colour : String
comment_colour = "\u{1b}[38;5;242m"

abbrev param : String
param = "\u{1b}[38;5;74m"

abbrev cmd_colour : String
cmd_colour = "\u{1b}[38;5;47m"

abbrev normal : String
normal = "\u{1b}[39m"

abbrev attn : String
attn = "\u{1b}[38;5;214m"

-- The text that is formatted with the colours.
unfoldable pub usage : String
usage = written (
    attn ∷ "usage: " ∷ cmd_colour ∷ "marina " ∷ param ∷ "cmd" ∷ normal ∷ "\n  " ∷ param ∷ "cmd"
    ∷ normal ∷ ":\n   " ∷ comment_colour ∷ "project info" ∷ normal ∷ "\n   " ∷ cmd_colour ∷ "bps"
    ∷ normal ∷ " " ∷ param ∷ "project        " ∷ comment_colour
    ∷ "show blueprints in a project\n   " ∷ cmd_colour ∷ "mzs" ∷ normal ∷ " " ∷ param
    ∷ "project        " ∷ comment_colour ∷ "show materializations in a project\n\n   "
    ∷ comment_colour ∷ "experiment control" ∷ normal ∷ "\n   " ∷ cmd_colour ∷ "bcc " ∷ param
    ∷ "source" ∷ normal ∷ "               " ∷ comment_colour ∷ "compile a blueprint" ∷ normal
    ∷ "\n   " ∷ cmd_colour ∷ "save " ∷ param ∷ "blueprint project" ∷ normal ∷ "   " ∷ comment_colour
    ∷ "save a compiled blueprint" ∷ normal ∷ "\n   " ∷ cmd_colour ∷ "rm " ∷ param
    ∷ "blueprint project" ∷ normal ∷ "     " ∷ comment_colour ∷ "remove a saved blueprint" ∷ normal
    ∷ "\n   " ∷ cmd_colour ∷ "up " ∷ param ∷ "project blueprint" ∷ normal ∷ "     " ∷ comment_colour
    ∷ "materialize a blueprint" ∷ normal ∷ "\n   " ∷ cmd_colour ∷ "down " ∷ param
    ∷ "project blueprint" ∷ normal ∷ "   " ∷ comment_colour ∷ "dematerialize a blueprint" ∷ normal
    ∷ "\n\n   " ∷ comment_colour ∷ "experiment access\n   " ∷ cmd_colour ∷ "console " ∷ param
    ∷ "mzn node         " ∷ comment_colour ∷ "get a vnc console on a materialized node\n   "
    ∷ cmd_colour ∷ "ssh " ∷ param ∷ "mzn node             " ∷ comment_colour
    ∷ "get a secure shell on a materialized node\n   \n   " ∷ comment_colour
    ∷ "testbed control\n   " ∷ cmd_colour ∷ "tcc " ∷ param ∷ "source" ∷ normal ∷ "      "
    ∷ comment_colour ∷ "compile a testbed topology" ∷ normal ∷ "\n   " ∷ cmd_colour ∷ "topo "
    ∷ param ∷ "topology" ∷ normal ∷ "   " ∷ comment_colour ∷ "set the testbed topology\n   "
    ∷ cmd_colour ∷ "status                " ∷ comment_colour ∷ "brief status of the testbed\n   "
    ∷ cmd_colour ∷ "dump                  " ∷ comment_colour ∷ "detailed status of the testbed\n"
    ∷ normal ∷ [])

module _ {W : Type 0} where
  unfoldable pub fail : Client W Done
  fail = give_up (usage ∷ [])

  -- if(argc != 3) fail(); f(argv[2])
  unfoldable pub one : (String → Client W Done) → List String → Client W Done
  one f (a ∷ []) = f a
  one f args = fail

  -- if(argc != 4) fail(); f(argv[2], argv[3])
  unfoldable pub two : (String → String → Client W Done) → List String → Client W Done
  two f (a ∷ b ∷ []) = f a b
  two f args = fail

module _ {J W : Type 0} (t : JsonText J) (l : JsonLib J) (m : Platform J W) (u : UuidLib) (o : Inet)
    (draw : Supply) where
  -- What follows the name of a command.
  unfoldable pub dispatch : String → List String → Client W Done
  dispatch cmd args =
      if cmd == "bps"
      then one (bps t l m u o draw) args
      else if cmd == "mzs"
      then one (mzs t l m u o draw) args
      else if cmd == "bcc"
      then one (bcc m l u) args
      else if cmd == "save"
      then two (save t l m) args
      else if cmd == "rm"
      then two (rm t l m) args
      else if cmd == "up"
      then two (up t l m) args
      else if cmd == "down"
      then two (down t l m) args
      else if cmd == "tcc"
      then one (tcc m l u) args
      else if cmd == "topo"
      then one (topo t l m) args
      else if cmd == "console"
      then two (console t l m) args
      else if cmd == "ssh"
      then two (ssh t l m) args
      else if cmd == "status"
      then status t l m
      else if cmd == "dump"
      then dump t l m u o draw
      else fail

  -- main, from what follows the name of the program
  unfoldable pub main : List String → Client W Done
  main [] = fail
  main (cmd ∷ args) = dispatch cmd args
