-- ===== src/Embed/Fill.antt =====
-- The loop of embed (core/embed.cxx) over the hosts of one switch, and the loop over the switches.
use marinatb.Common.{
  ℕ, zero, suc, Bool, true, false, List, [], ◌∷◌, Result, ok, err, undefined, ◌>>=◌, length,
  nat_beq, nat_eq,
}
use marinatb.Common.Dict
use marinatb.Common.Dict.{Dict}
use marinatb.Platform.{Double, Pipes, Std}
use marinatb.Ident.{Uuid}
use marinatb.Blueprint.Computer.{Computer}
use marinatb.Topo.Host
use marinatb.Embed.Load.{HostEmbedding, load, free_norm}
use marinatb.Embed.Chart.{SwitchEmbedding}
use marinatb.Embed.Pack.{pack}

-- The map of hosts and the machines that are left to place.
pub record Progress : Type 0 where
  pub hmap : Dict Uuid HostEmbedding
  pub left : List Computer

module _ {F : Type 0} (p : Pipes F) where
  -- What a round does with the sorted hosts: the hosts, the progress, and the number of machines
  -- left before the round. `front` of an empty vector is undefined behaviour.
  unfoldable pub place : List HostEmbedding → Progress → Result (List HostEmbedding × Progress)
  place [] g = err undefined
  place (chosen ∷ others) g =
      let packed = pack p chosen g.left in
      ok (
        packed.0 ∷ others,
        record {
          hmap = Dict.insert_or_assign (Host.id packed.0.host) packed.0 g.hmap;
          left = packed.1;
        },
      )

module _ {F : Type 0} (d : Double F) (p : Pipes F) (st : Std) where
  unfoldable pub freer : HostEmbedding → HostEmbedding → Bool
  freer x y = d.lt (free_norm d (load p y)) (free_norm d (load p x))

  unfoldable pub round : List HostEmbedding → Progress → Result (List HostEmbedding × Progress)
  unfolding freer place
  round hosts g = place p (st.sort freer hosts) g

  -- while(!cs.empty()): ends when nothing is left, or when a round has placed nothing.
  unfoldable pub fill : ℕ → List HostEmbedding → Progress → Result Progress
  fill zero hosts g = ok g
  fill (suc fuel) hosts g = elim g.left [
    | [] ↦ ok g
    | c ∷ cs ↦ elim (round hosts g) [
      | err e ↦ err e
      | ok (hosts', g') ↦ elim (nat_beq (length g.left) (length g'.left)) [
        | true ↦ ok g'
        | false ↦ fill fuel hosts' g'
      ]
    ]
  ]

  -- The loop over the sorted switches, each with its hosts.
  unfoldable pub fill_switches :
      List (SwitchEmbedding × List HostEmbedding) → Progress → Result Progress
  fill_switches [] g = ok g
  fill_switches ((_, hosts) ∷ sws) g = do
    g' ← fill (suc (length g.left)) hosts g
    fill_switches sws g'
