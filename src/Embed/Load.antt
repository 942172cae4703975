-- ===== src/Embed/Load.antt =====
-- struct Load, struct LoadVector and the load of a host (core/embed.cxx).
use marinatb.Common.{ℕ, String, Bool, nat_eq, ◌||◌, [], ◌∷◌, ltb, nat_beq, add64, if◌then◌else◌}
use marinatb.Common.Dict.{Dict}
use marinatb.Common.Dict
use marinatb.Platform.{Double, Pipes}
use marinatb.Units.Memory
use marinatb.Units.Bandwidth
use marinatb.Ident.{Uuid}
use marinatb.Blueprint.Interface.{Interface}
use marinatb.Blueprint.HwSpec
use marinatb.Blueprint.HwSpec.{HwSpec}
use marinatb.Blueprint.Computer
use marinatb.Blueprint.Computer.{Computer}
use marinatb.Topo.Host.{Host}

pub record Load : Type 0 where
  pub used : ℕ
  pub total : ℕ

pub record LoadVector : Type 0 where
  pub proc : Load
  pub mem : Load
  pub net : Load
  pub disk : Load

unfoldable pub load_overloaded : Load → Bool
load_overloaded l = ltb l.total l.used

-- operator + (Load, Load)
unfoldable pub load_plus : Load → Load → Load
load_plus x y = record { used = add64 x.used y.used; total = add64 x.total y.total }

unfoldable pub overloaded : LoadVector → Bool
unfolding load_overloaded
overloaded v =
    load_overloaded v.proc
    || load_overloaded v.mem
    || load_overloaded v.net
    || load_overloaded v.disk

add_used : Load → ℕ → Load
add_used l x = record l { used = add64 l.used x }

-- LoadVector::operator+ (HwSpec)
unfoldable pub plus_spec : LoadVector → HwSpec → LoadVector
unfolding add_used
plus_spec v x = record {
  proc = add_used v.proc x.proc;
  mem = add_used v.mem x.mem;
  net = add_used v.net x.net;
  disk = add_used v.disk x.disk;
}

-- operator + (LoadVector, LoadVector)
unfoldable pub plus : LoadVector → LoadVector → LoadVector
unfolding load_plus
plus x y = record {
  proc = load_plus x.proc y.proc;
  mem = load_plus x.mem y.mem;
  net = load_plus x.net y.net;
  disk = load_plus x.disk y.disk;
}

-- used() and total(). HwSpec{proc, mem, net, disk} is built in the order of its members.
unfoldable pub used : LoadVector → HwSpec
used v = record { proc = v.proc.used; mem = v.mem.used; net = v.net.used; disk = v.disk.used }

unfoldable pub total : LoadVector → HwSpec
total v = record { proc = v.proc.total; mem = v.mem.total; net = v.net.total; disk = v.disk.total }

module _ {F : Type 0} (d : Double F) where
  open d use {of_nat, add, sub, div}

  unfoldable pub percent_used : Load → F
  percent_used l = if nat_beq l.total 0 then of_nat 0 else div (of_nat l.used) (of_nat l.total)

  unfoldable pub percent_free : Load → F
  unfolding percent_used
  percent_free l = sub (of_nat 1) (percent_used l)

  mean : F → F → F → F → F
  mean a b c e = div (add (add (add a b) c) e) (of_nat 4)

  unfoldable pub norm : LoadVector → F
  unfolding mean percent_used
  norm v =
      mean (percent_used v.proc) (percent_used v.mem) (percent_used v.net) (percent_used v.disk)

  unfoldable pub free_norm : LoadVector → F
  unfolding mean percent_free
  free_norm v =
      mean (percent_free v.proc) (percent_free v.mem) (percent_free v.net) (percent_free v.disk)

  unfoldable pub inf_norm : LoadVector → F
  inf_norm v = HwSpec.neg_inf_norm d (used v)

  unfoldable pub free_inf_norm : LoadVector → F
  free_inf_norm v = HwSpec.inf_norm d (HwSpec.minus (total v) (used v))

-- struct HostEmbedding
pub record HostEmbedding : Type 0 where
  pub host : Host
  pub machines : Dict Uuid Computer

-- HostEmbedding(Host)
abbrev pub empty_host : Host → HostEmbedding
empty_host h = record { host = h; machines = [] }

-- operator+(Computer) and operator-(Computer)
unfoldable pub add_machine : HostEmbedding → Computer → HostEmbedding
add_machine he c = record he { machines = Dict.insert_or_assign c.id c he.machines }

unfoldable pub drop_machine : HostEmbedding → Computer → HostEmbedding
drop_machine he c = record he { machines = Dict.erase c.id he.machines }

-- The loop of load() over the interfaces of the host.
capacity_sum : ℕ → Dict String Interface → ℕ
capacity_sum x [] = x
capacity_sum x ((_, i) ∷ m) = capacity_sum (add64 x (Bandwidth.megabits i.capacity)) m

module _ {F : Type 0} (p : Pipes F) where
  -- The sum of one resource over the machines of a host.
  unfoldable pub total_of : (Computer → ℕ) → Dict Uuid Computer → ℕ
  total_of f m = p.reduce_sizes (p.map (λ e. f e.1) m)

  unfoldable pub load : HostEmbedding → LoadVector
  unfolding capacity_sum total_of
  load he =
      let comp = he.host.host_comp in
      record {
        proc = record { used = total_of (λ c. c.cores) he.machines; total = comp.cores };
        mem = record {
          used = total_of (λ c. Memory.megabytes c.memory) he.machines;
          total = Memory.megabytes comp.memory;
        };
        net = record {
          used = total_of (λ c. (Computer.hwspec p c).net) he.machines;
          total = capacity_sum 0 comp.interfaces;
        };
        disk = record {
          used = total_of (λ c. Memory.megabytes c.disk) he.machines;
          total = Memory.megabytes comp.disk;
        };
      }
