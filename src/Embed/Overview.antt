-- ===== src/Embed/Overview.antt =====
-- The printing of loads and of a chart (core/embed.cxx). How a number is printed is a parameter.
use marinatb.Common.{ℕ, String, [], ◌∷◌, length}
use marinatb.Common.Dict.{Dict}
use marinatb.Platform.{Double, Pipes}
use marinatb.Ident.{Uuid}
use marinatb.Blueprint.Computer.{Computer}
use marinatb.Topo.Host
use marinatb.Database.Statement.{written}
use marinatb.Embed.Load.{Load, LoadVector, HostEmbedding, percent_used, load, norm}
use marinatb.Embed.Chart.{EChart, SwitchEmbedding}

module _ {F : Type 0} (d : Double F) (p : Pipes F) (decimal : ℕ → String) (shown : F → String) where
  -- Load::str
  unfoldable pub load_str : Load → String
  load_str x = written (
      "["
      ∷ decimal x.used
      ∷ "/"
      ∷ decimal x.total
      ∷ "] "
      ∷ shown (d.mul (percent_used d x) (d.of_nat 100))
      ∷ "%"
      ∷ [])

  -- LoadVector::str
  unfoldable pub str : LoadVector → String
  str v = written (
      "proc: "
      ∷ load_str v.proc
      ∷ "\nmem: "
      ∷ load_str v.mem
      ∷ "\nnet: "
      ∷ load_str v.net
      ∷ "\ndisk: "
      ∷ load_str v.disk
      ∷ "\n"
      ∷ [])

  unfoldable pub machine_lines : Dict Uuid Computer → String
  machine_lines [] = ""
  machine_lines ((_, c) ∷ ms) = written ("  " ∷ c.name ∷ "\n" ∷ machine_lines ms ∷ [])

  unfoldable pub host_lines : Dict Uuid HostEmbedding → String
  host_lines [] = ""
  host_lines ((_, he) ∷ hs) = written (
      Host.name he.host
      ∷ " "
      ∷ decimal (length he.machines)
      ∷ " "
      ∷ shown (norm d (load p he))
      ∷ "\n"
      ∷ machine_lines he.machines
      ∷ host_lines hs
      ∷ [])

  unfoldable pub switch_lines : Dict Uuid SwitchEmbedding → String
  switch_lines [] = ""
  switch_lines ((_, se) ∷ ss) =
      written (se.sw.name ∷ " " ∷ decimal (length se.networks) ∷ "\n" ∷ switch_lines ss ∷ [])

  -- EChart::overview
  unfoldable pub overview : EChart → String
  overview e = written (host_lines e.hmap ∷ switch_lines e.smap ∷ [])
