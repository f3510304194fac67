-- ===== src/Swarm/Speculative/Limit.antt =====
-- The number of tokens of a session and its end: crates/hivebear-mesh/src/swarm/speculative.rs.
use hive_bear.Prelude.{
  ℕ, ◌+◌, ◌≤◌, ◌<◌, ◌^◌, ◌≡◌, ◌≢◌, Bool, true, false, Option, none, some, length,
}
use hive_bear.MeshError.{MeshError}
use hive_bear.Swarm.Speculative.{Session, Status, out_of_fuel}

-- The counter is the number of emitted tokens.
abbrev pub IsCounted : Session → Type 0
IsCounted s = s.total_generated ≡ length s.emitted

abbrev Emitted : ℕ → Session × Bool → Type 0
Emitted n (s, true) = IsCounted s × (length s.emitted ≡ n)
Emitted n (s, false) = length s.emitted ≤ n

module _ (max_tokens : ℕ) (small : max_tokens + 1 < 2 ^ 32) where
  -- A round from a session of t tokens: if the loop goes on there are more of them.
  abbrev Goes : ℕ → Session × Option Status → Type 0
  Goes t (s, none) = IsCounted s × (t < length s.emitted) × (length s.emitted ≤ max_tokens + 1)
  Goes t (s, some e) = (length s.emitted ≤ max_tokens + 1) × (e ≢ out_of_fuel)

  abbrev Stops : Session × Status → Type 0
  Stops (s, e) = (length s.emitted ≤ max_tokens + 1) × (e ≢ out_of_fuel)
