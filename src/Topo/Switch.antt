-- ===== src/Topo/Switch.antt =====
-- class Switch.
use marinatb.Common.{
  ℕ, String, Bool, not, ◌&&◌, ◌==◌, string_eq, nat_eq, List, [], ◌∷◌, Result, ok, ◌>>=◌, remove_if,
  add64,
}
use marinatb.Platform.{Inet}
use marinatb.Units.Bandwidth
use marinatb.Units.Bandwidth.{Bandwidth, mbps}
use marinatb.Ident.{Uuid}
use marinatb.Blueprint.Network
use marinatb.Blueprint.Network.{Network}

pub record Switch : Type 0 where
  pub id : Uuid
  pub name : String
  pub backplane : Bandwidth
  pub networks : List Network

-- Switch(string), with its new id
unfoldable pub create : String → Uuid → Switch
create name id = record {
  id = id;
  name = name;
  backplane = record { size = 0; unit = mbps };
  networks = [];
}

-- name and backplane with an argument
unfoldable pub set_name : Switch → String → Switch
set_name s name = record s { name = name }

unfoldable pub set_backplane : Switch → Bandwidth → Switch
set_backplane s b = record s { backplane = b }

has_id : Uuid → Network → Bool
has_id id n = n.id == id

unfoldable pub remove_network : Switch → Uuid → Switch
unfolding has_id
remove_network s id = record s { networks = remove_if (has_id id) s.networks }

-- The accumulating loop of allocatedBackplane.
allocated : ℕ → List Network → ℕ
allocated x [] = x
allocated x (n ∷ ns) = allocated (add64 x (Bandwidth.megabits n.bandwidth)) ns

unfoldable pub allocated_backplane : Switch → Bandwidth
unfolding allocated
allocated_backplane s = record { size = allocated 0 s.networks; unit = mbps }

-- operator ==
unfoldable pub eq : Switch → Switch → Bool
eq a b =
    a.name == b.name
    && Bandwidth.eq a.backplane b.backplane
    && Bandwidth.eq (allocated_backplane a) (allocated_backplane b)

unfoldable pub ne : Switch → Switch → Bool
ne a b = not (eq a b)

clone_all : Inet → Uuid → List Network → Result (List Network)
clone_all o fresh [] = ok []
clone_all o fresh (n ∷ ns) = do c ← Network.clone o n fresh; cs ← clone_all o fresh ns; ok (c ∷ cs)

-- clone: the copy keeps the new id that the constructor draws.
unfoldable pub clone : Inet → Switch → Uuid → Result Switch
unfolding clone_all
clone o s fresh = do
  ns ← clone_all o fresh s.networks
  ok (record (create s.name fresh) { backplane = s.backplane; networks = ns })
