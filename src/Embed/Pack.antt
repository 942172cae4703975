-- ===== src/Embed/Pack.antt =====
-- pack (core/embed.cxx): machines move from the end of a vector to one host, as long as the host is
-- not overloaded. The head of a list is the end of the vector.
use marinatb.Common.{List, [], ◌∷◌, if◌then◌else◌}
use marinatb.Platform.{Pipes}
use marinatb.Blueprint.Computer.{Computer}
use marinatb.Embed.Load.{HostEmbedding, load, overloaded, add_machine, drop_machine}

module _ {F : Type 0} (p : Pipes F) where
  -- The host and the vector after the loop.
  unfoldable pub pack : HostEmbedding → List Computer → HostEmbedding × List Computer
  pack he [] = (he, [])
  pack he (c ∷ cs) =
      let grown = add_machine he c in
      let rest = pack grown cs in
      if overloaded (load p grown) then (drop_machine grown c, c ∷ cs) else rest
