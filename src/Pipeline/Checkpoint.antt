-- ===== src/Pipeline/Checkpoint.antt =====
-- Checkpoints of activations: crates/hivebear-mesh/src/pipeline/checkpoint.rs. The maps of a session are
-- from token positions; the bytes of an activation are numbers; `now` is the monotonic clock.
use hive_bear.Prelude.{
  ℕ, ◌+◌, ◌≤◌, ◌<◌, ◌≡◌, ◌≢◌, refl, Option, none, some, List, [], ◌∷◌, arith, length, ltb, leb,
  if◌then◌else◌, Bool-cases, inl, inr, leb→le, ℕ_discrete,
}
use hive_bear.Prelude.Map.{
  lookup, insert, remove, lookup-insert_self, lookup-insert_ne, length-insert-le,
  length-remove_present,
}
use hive_bear.Peer.{Uuid}
use hive_bear.Transport.Dtype.{TensorDtype}

pub record ActivationCheckpoint : Type 0 where
  pub token_position : ℕ
  pub activation_data : List ℕ
  pub shape : List ℕ
  pub dtype : TensorDtype
  pub source_layer : ℕ
  pub timestamp : ℕ

abbrev SessionMap : Type 0
SessionMap = List (ℕ × ActivationCheckpoint)

pub record CheckpointStore : Type 0 where
  pub checkpoints : List (Uuid × SessionMap)
  pub max_per_session : ℕ

-- `some` of the earlier of two entries, the first of equals.
unfoldable pub earlier :
    ℕ × ActivationCheckpoint → Option (ℕ × ActivationCheckpoint) → Option (ℕ × ActivationCheckpoint)
earlier e none = some e
earlier e (some f) = if leb e.1.timestamp f.1.timestamp then some e else some f

-- The entry of the smallest timestamp, the first of equals: `min_by_key`.
unfoldable pub oldest : SessionMap → Option (ℕ × ActivationCheckpoint)
oldest [] = none
oldest (e ∷ rest) = earlier e (oldest rest)

-- The checkpoint of the larger position, the last of equals: `max_by_key`.
unfoldable pub furthest : SessionMap → Option ActivationCheckpoint
furthest [] = none
furthest (e ∷ rest) = later e.1 (furthest rest)
  where
    later : ActivationCheckpoint → Option ActivationCheckpoint → Option ActivationCheckpoint
    later c none = some c
    later c (some d) = if ltb d.token_position c.token_position then some c else some d

abbrev pub or_empty : Option SessionMap → SessionMap
or_empty none = []
or_empty (some m) = m

unfoldable pub evict : Option (ℕ × ActivationCheckpoint) → SessionMap → SessionMap
evict none m = m
evict (some e) m = remove ℕ_discrete e.0 m

unfoldable pub save_in : ℕ → ActivationCheckpoint → SessionMap → SessionMap
save_in max_per_session c m =
    insert ℕ_discrete c.token_position c
      (if leb max_per_session (length m) then evict (oldest m) m else m)

unfoldable pub save : Uuid → ActivationCheckpoint → CheckpointStore → CheckpointStore
save session c s =
    let m = or_empty (lookup ℕ_discrete session s.checkpoints) in
    record s {
      checkpoints = insert ℕ_discrete session (save_in s.max_per_session c m) s.checkpoints;
    }

unfoldable pub latest : Uuid → CheckpointStore → Option ActivationCheckpoint
latest session s = furthest (or_empty (lookup ℕ_discrete session s.checkpoints))

unfoldable pub get : Uuid → ℕ → CheckpointStore → Option ActivationCheckpoint
get session position s =
    lookup ℕ_discrete position (or_empty (lookup ℕ_discrete session s.checkpoints))

unfoldable clear_session : Uuid → CheckpointStore → CheckpointStore
clear_session session s = record s { checkpoints = remove ℕ_discrete session s.checkpoints }

unfoldable total_checkpoints : List (Uuid × SessionMap) → ℕ
total_checkpoints [] = 0
total_checkpoints (e ∷ rest) = length e.1 + total_checkpoints rest

-- The number of checkpoints of a session.
unfoldable pub session_length : Uuid → CheckpointStore → ℕ
session_length session s = length (or_empty (lookup ℕ_discrete session s.checkpoints))

lookup-head :
    (e : ℕ × ActivationCheckpoint) (rest : SessionMap) → lookup ℕ_discrete e.0 (e ∷ rest) ≡ some e.1
unfolding lookup
lookup-head e rest = ground arith

-- The entry is one of the map, up to the checkpoint that the map holds at its position.
abbrev Within : SessionMap → Option (ℕ × ActivationCheckpoint) → Type 0
Within m none = length m ≡ 0
Within m (some e) = (v : ActivationCheckpoint) × (lookup ℕ_discrete e.0 m ≡ some v)

earlier-Within :
    (e : ℕ × ActivationCheckpoint) (rest : SessionMap) (o : Option (ℕ × ActivationCheckpoint))
    → Within rest o
    → Within (e ∷ rest) (earlier e o)
unfolding earlier
earlier-Within e rest none w = (e.1, lookup-head e rest)
earlier-Within e rest (some f) w = elim (Bool-cases (leb e.1.timestamp f.1.timestamp)) [
  | inl first ↦ rw first (e.1, lookup-head e rest)
  | inr second ↦ rw second (later (ℕ_discrete e.0 f.0))
]
  where
    later :
        Dec (e.0 ≡ f.0) → (v : ActivationCheckpoint) × (lookup ℕ_discrete f.0 (e ∷ rest) ≡ some v)
    later (yes q) = (e.1, rw (← q) (lookup-head e rest))
    later (no n) = (w.0, unfold lookup in ground (arith, w.1, n))

oldest-Within : (m : SessionMap) → Within m (oldest m)
unfolding oldest
oldest-Within [] = refl
oldest-Within (e ∷ rest) = earlier-Within e rest (oldest rest) (oldest-Within rest)

evict-shorter :
    (m : SessionMap) (o : Option (ℕ × ActivationCheckpoint))
    → Within m o
    → 0 < length m
    → length (evict o m) < length m
unfolding evict
evict-shorter m none w pos = absurd (omega (arith, w, pos))
evict-shorter m (some e) w pos = length-remove_present ℕ_discrete e.0 w.0 m w.1

save_in-length :
    (max_per_session : ℕ) (c : ActivationCheckpoint) (m : SessionMap)
    → 0 < max_per_session
    → length m ≤ max_per_session
    → length (save_in max_per_session c m) ≤ max_per_session
unfolding save_in
save_in-length max_per_session c m pos le =
    let p = c.token_position in
    elim (Bool-cases (leb max_per_session (length m))) [
      | inl full ↦
          let at_least = leb→le max_per_session (length m) full in
          rw full (
            omega (
              arith,
              le,
              at_least,
              evict-shorter m (oldest m) (oldest-Within m) (omega (arith, at_least, pos)),
              length-insert-le ℕ_discrete p c (evict (oldest m) m),
            ))
      | inr space ↦
          let room : length m < max_per_session = ground (arith, space) in
          rw space (omega (arith, room, length-insert-le ℕ_discrete p c m))
    ]

-- After a save, the session holds the saved checkpoint at its position and at most the limit of
-- checkpoints, if it held no more before and the limit is not 0; the other sessions are as before.
pub save_lem :
    (session other : Uuid) (position : ℕ) (c : ActivationCheckpoint) (s : CheckpointStore)
    → 0 < s.max_per_session
    → session_length session s ≤ s.max_per_session
    → session ≢ other
    → (get session c.token_position (save session c s) ≡ some c)
      × (session_length session (save session c s) ≤ s.max_per_session)
      × (get other position (save session c s) ≡ get other position s)
      × (latest other (save session c s) ≡ latest other s)
unfolding save get latest session_length
save_lem session other position c s pos le ne =
    let m = or_empty (lookup ℕ_discrete session s.checkpoints) in
    let saved = save_in s.max_per_session c m in
    rw
      (
        lookup-insert_self ℕ_discrete session saved s.checkpoints,
        lookup-insert_ne ℕ_discrete session other saved s.checkpoints ne,
      )
      (saved_there m, save_in-length s.max_per_session c m pos le, refl, refl)
  where
    saved_there :
        (m : SessionMap)
        → lookup ℕ_discrete c.token_position (save_in s.max_per_session c m) ≡ some c
    saved_there m = unfold save_in in lookup-insert_self ℕ_discrete c.token_position c _
