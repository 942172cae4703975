-- ===== src/Blueprint/HwSpec.antt =====
-- struct HwSpec. The members are `size_t`: sums and differences wrap round.
use marinatb.Common.{ℕ, ◌+◌, ◌-◌, ◌%◌, add64, size_mod}
use Prim.Native.Nat.{min, max}
use marinatb.Platform.{Double}

pub record HwSpec : Type 0 where
  pub proc : ℕ
  pub mem : ℕ
  pub net : ℕ
  pub disk : ℕ

abbrev sub64 : ℕ → ℕ → ℕ
sub64 a b = (a + size_mod - b) % size_mod

unfoldable pub plus : HwSpec → HwSpec → HwSpec
plus a b = record {
  proc = add64 a.proc b.proc;
  mem = add64 a.mem b.mem;
  net = add64 a.net b.net;
  disk = add64 a.disk b.disk;
}

unfoldable pub minus : HwSpec → HwSpec → HwSpec
minus a b = record {
  proc = sub64 a.proc b.proc;
  mem = sub64 a.mem b.mem;
  net = sub64 a.net b.net;
  disk = sub64 a.disk b.disk;
}

module _ {F : Type 0} (d : Double F) where
  unfoldable pub inf_norm : HwSpec → F
  inf_norm x = d.of_nat (max (max (max x.proc x.mem) x.net) x.disk)

  unfoldable pub neg_inf_norm : HwSpec → F
  neg_inf_norm x = d.of_nat (min (min (min x.proc x.mem) x.net) x.disk)
