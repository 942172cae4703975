-- ===== src/Blueprint/Compare.antt =====
-- operator == and clone of class Blueprint.
use marinatb.Common.{
  Bool, true, false, not, ◌&&◌, ◌==◌, string_eq, nat_eq, nat_beq, Option, none, some, [], ◌∷◌,
  String, Result, ok, ◌>>=◌, length,
}
use marinatb.Common.Dict
use marinatb.Common.Dict.{Dict}
use marinatb.Platform.{Double, Inet}
use marinatb.Ident.{Uuid}
use marinatb.Blueprint.Network
use marinatb.Blueprint.Network.{Network}
use marinatb.Blueprint.Computer
use marinatb.Blueprint.Computer.{Computer}
use marinatb.Blueprint.Store.{Blueprint, create}

module _ {V : Type 0} (same : V → V → Bool) where
  abbrev found_same : V → Option V → Bool
  found_same v none = false
  found_same v (some w) = same v w

  -- The lambda `compare`: every entry of the first map has an equal one in the second.
  unfoldable pub entries_eq : Dict Uuid V → Dict Uuid V → Bool
  entries_eq [] ys = true
  entries_eq ((k, v) ∷ xs) ys = found_same v (Dict.find k ys) && entries_eq xs ys

module _ {F : Type 0} (d : Double F) where
  unfoldable pub eq : Blueprint → Blueprint → Bool
  eq a b =
      a.name == b.name
      && nat_beq (length a.computers) (length b.computers)
      && entries_eq (Computer.eq d) a.computers b.computers
      && nat_beq (length a.networks) (length b.networks)
      && entries_eq (Network.eq d) a.networks b.networks

  unfoldable pub ne : Blueprint → Blueprint → Bool
  ne a b = not (eq a b)

-- The loops of `clone`, which insert the clones one by one.
clone_networks : Inet → Uuid → Dict Uuid Network → Dict Uuid Network → Result (Dict Uuid Network)
clone_networks o fresh [] out = ok out
clone_networks o fresh ((k, n) ∷ m) out = do
  c ← Network.clone o n fresh
  clone_networks o fresh m (Dict.insert_or_assign k c out)

clone_computers :
    Uuid → (Uuid → String) → Dict Uuid Computer → Dict Uuid Computer → Dict Uuid Computer
clone_computers fresh macs [] out = out
clone_computers fresh macs ((k, c) ∷ m) out =
    clone_computers fresh macs m (Dict.insert_or_assign k (Computer.clone c fresh (macs k)) out)

-- clone. The ids that the constructors draw are all overwritten, so one argument stands for them;
-- `macs` has the address that the constructor of each computer draws for its control interface.
unfoldable pub clone : Inet → Blueprint → Uuid → (Uuid → String) → Result Blueprint
unfolding clone_networks clone_computers
clone o bp fresh macs = do
  networks ← clone_networks o fresh bp.networks []
  ok (record (create bp.name fresh) {
    id = bp.id;
    networks = networks;
    computers = clone_computers fresh macs bp.computers [];
    links = bp.links;
  })
