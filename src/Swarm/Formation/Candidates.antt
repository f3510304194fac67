-- ===== src/Swarm/Formation/Candidates.antt =====
-- The latencies between peers and the candidates of a round: crates/hivebear-mesh/src/swarm/formation.rs. The vectors
-- `swarm_eligible` and `assigned` are one list of slots, and an index into them carries the peer that
-- stands there.
use hive_bear.Prelude.{
  ℕ, suc, Bool, true, false, ◌&&◌, ◌||◌, Option, none, some, List, [], ◌∷◌, ◌++◌, length, ltb, ◌==◌,
  if◌then◌else◌, ℕ_discrete,
}
use hive_bear.Prelude.Map.{lookup}
use hive_bear.Float.{Float}
use hive_bear.Peer.{PeerInfo}
use hive_bear.Swarm.Formation.Models.{FormationConfig}

pub record Slot (fl : Float) : Type 0 where
  pub peer : PeerInfo fl
  pub assigned : Bool

-- The entry of `build_latency_matrix` for a peer and one with a larger index.
unfoldable pub or_unknown : (fl : Float) → Option fl.F64 → fl.F64
or_unknown fl none = fl.literal 50 0
or_unknown fl (some l) = l

unfoldable pub first_measured : (fl : Float) → Option fl.F64 → Option fl.F64 → fl.F64 → fl.F64
first_measured fl (some l) second average = l
first_measured fl none (some l) average = l
first_measured fl none none average = average

unfoldable pub within : (fl : Float) → fl.F64 → Option fl.F64 → Bool
within fl limit none = false
within fl limit (some latency) = fl.less_eq latency limit

module _ {fl : Float} where
  open fl use {literal, add, div}

  unfoldable pub pair_latency : PeerInfo fl → PeerInfo fl → fl.F64
  unfolding or_unknown first_measured
  pair_latency a b =
      first_measured fl (lookup ℕ_discrete b.node_id a.latency_map)
        (lookup ℕ_discrete a.node_id b.latency_map)
        (div (add (or_unknown fl a.latency_ms) (or_unknown fl b.latency_ms)) (literal 2 0))

  -- `latency_matrix.get(&key)`, the key with the smaller index first.
  unfoldable pub matrix_get : ℕ × PeerInfo fl → ℕ × PeerInfo fl → Option fl.F64
  unfolding pair_latency
  matrix_get (i, a) (j, b) =
      if ltb i j then some (pair_latency a b) else if ltb j i then some (pair_latency b a) else none

  unfoldable pub all_close : FormationConfig fl → ℕ × PeerInfo fl → List (ℕ × PeerInfo fl) → Bool
  unfolding within
  all_close config c [] = true
  all_close config c (m ∷ ms) =
      within fl config.max_latency_ms (matrix_get m c) && all_close config c ms

  -- One round of the loop that finds candidates.
  unfoldable pub consider :
      FormationConfig fl → ℕ → Slot fl → ℕ → List (ℕ × PeerInfo fl) → List (ℕ × PeerInfo fl)
  consider config i slot j candidates =
      if i == j || slot.assigned
      then candidates
      else if all_close config (j, slot.peer) candidates
          && ltb (length candidates) config.max_pipeline_depth
      then candidates ++ (j, slot.peer) ∷ []
      else candidates

  unfoldable pub gather :
      FormationConfig fl → ℕ → List (Slot fl) → ℕ → List (ℕ × PeerInfo fl) → List (ℕ × PeerInfo fl)
  gather config i [] j candidates = candidates
  gather config i (slot ∷ slots) j candidates =
      gather config i slots (suc j) (consider config i slot j candidates)
