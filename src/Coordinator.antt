-- ===== src/Coordinator.antt =====
-- The state of the coordination server, and its requests but karma:
-- crates/hivebear-coordinator/src/main.rs. A request returns the new state and its answer; `now` is the
-- reading of the monotonic clock that the handler takes, in nanoseconds. A `DashMap` is a map.
pub mod Karma
pub mod Run
mod Tests
use hive_bear.Prelude.{
  ℕ, ◌+◌, ◌-◌, ◌*◌, ◌%◌, ◌^◌, Bool, true, ◌&&◌, ◌||◌, Option, none, some, List, [], ◌∷◌, ◌++◌, keep,
  length, ltb, leb, ◌==◌, if◌then◌else◌,
}
use hive_bear.Prelude.Map.{lookup, insert, remove}
use hive_bear.Prelude.Map.Distinct.{retain}
use hive_bear.Prelude.Text.{Text, text_dec, contains}
use hive_bear.Float.{Float}
use hive_bear.Peer.{NodeId, MeshTier, PeerInfo}

pub data StatusCode : Type 0 where
  ok too_many_requests conflict forbidden bad_request : StatusCode

pub record NodeEntry (fl : Float) : Type 0 where
  pub info : PeerInfo fl
  pub last_seen : ℕ

-- `payload` is the JSON value, as its text.
pub record SignalMessage : Type 0 where
  pub from_node : Text
  pub to_node : Text
  pub signal_type : Text
  pub payload : Text

-- A karma balance is an `i64` as its bit pattern.
pub record State (fl : Float) : Type 0 where
  pub nodes : List (Text × NodeEntry fl)
  pub signals : List (Text × List SignalMessage)
  pub karma : List (Text × ℕ)
  pub processed_receipts : List (Text × ℕ)

abbrev pub start : {fl : Float} → State fl
start = record { nodes = []; signals = []; karma = []; processed_receipts = [] }

-- 60 seconds, in nanoseconds.
abbrev pub stale_after : ℕ
stale_after = 60 * 10 ^ 9

-- `now.duration_since(entry.last_seen) < Duration::from_secs(60)`.
unfoldable pub is_active : {fl : Float} → ℕ → NodeEntry fl → Bool
is_active now e = ltb (now - e.last_seen) stale_after

-- One round of the background task: its closure drops the signals of each node that it prunes.
unfoldable pub clear_pruned :
    {fl : Float}
    → ℕ
    → List (Text × NodeEntry fl)
    → List (Text × List SignalMessage)
    → List (Text × List SignalMessage)
unfolding is_active
clear_pruned now [] signals = signals
clear_pruned now ((id, e) ∷ m) signals =
    let rest = clear_pruned now m signals in
    if is_active now e then rest else remove text_dec id rest

unfoldable pub prune : {fl : Float} → ℕ → State fl → State fl
unfolding is_active clear_pruned
prune now s = record s {
  nodes = retain (λ _ e. is_active now e) s.nodes;
  signals = clear_pruned now s.nodes s.signals;
}

module _ {fl : Float} (to_hex : NodeId → Text) where
  unfoldable pub register_node : ℕ → PeerInfo fl → State fl → State fl × StatusCode
  register_node now info s =
      let entry : NodeEntry fl = record { info = info; last_seen = now } in
      (record s { nodes = insert text_dec (to_hex info.node_id) entry s.nodes }, StatusCode.ok)

  unfoldable pub heartbeat_node : ℕ → PeerInfo fl → State fl → State fl × StatusCode
  heartbeat_node now info s =
      let id = to_hex info.node_id in
      elim (lookup text_dec id s.nodes) [
        | some entry ↦ (
          record s {
            nodes = insert text_dec id (record entry { info = info; last_seen = now }) s.nodes;
          },
          StatusCode.ok,
        )
        | none ↦ (
          record s { nodes = insert text_dec id (record { info = info; last_seen = now }) s.nodes },
          StatusCode.ok,
        )
      ]

-- The filter of `list_peers` on one entry, after the defaults of its two query parameters.
unfoldable serves : {fl : Float} → Text → ℕ → PeerInfo fl → Bool
serves target_model min_mem info =
    leb min_mem info.available_memory_bytes
    && (length target_model == 0
        || elim info.serving_model_id [ none ↦ true | some m ↦ contains target_model m ])

unfoldable collect_peers : {fl : Float} → Text → ℕ → List (Text × NodeEntry fl) → List (PeerInfo fl)
unfolding serves
collect_peers target_model min_mem [] = []
collect_peers target_model min_mem ((id, e) ∷ m) =
    let rest = collect_peers target_model min_mem m in
    if serves target_model min_mem e.info then e.info ∷ rest else rest

unfoldable list_peers : {fl : Float} → Option Text → Option ℕ → State fl → List (PeerInfo fl)
unfolding collect_peers
list_peers model min_memory s =
    collect_peers (elim model [ none ↦ [] | some t ↦ t ])
      (elim min_memory [ none ↦ 0 | some n ↦ n ]) s.nodes

unfoldable pub deregister_node : {fl : Float} → Option Text → State fl → State fl × StatusCode
deregister_node none s = (s, StatusCode.ok)
deregister_node (some id) s = (
  record s { nodes = remove text_dec id s.nodes; signals = remove text_dec id s.signals },
  StatusCode.ok,
)

abbrev pub or_default {ℓ} : {A : Type ℓ} → A → Option A → A
or_default d none = d
or_default d (some a) = a

-- `entry(to_node).or_default()` leaves an empty queue behind also where nothing is pushed.
unfoldable pub send_signal : {fl : Float} → SignalMessage → State fl → State fl × StatusCode
send_signal signal s =
    let queue = or_default [] (lookup text_dec signal.to_node s.signals) in
    if ltb (length queue) 50
    then (
      record s { signals = insert text_dec signal.to_node (queue ++ signal ∷ []) s.signals },
      StatusCode.ok,
    )
    else (
      record s { signals = insert text_dec signal.to_node queue s.signals },
      StatusCode.too_many_requests,
    )

unfoldable pub poll_signals : {fl : Float} → Text → State fl → State fl × List SignalMessage
poll_signals node_id s = elim (lookup text_dec node_id s.signals) [
  | some queue ↦ (record s { signals = remove text_dec node_id s.signals }, queue)
  | none ↦ (s, [])
]

-- The sums of `dashboard`, on `u64`.
unfoldable totals : {fl : Float} → List (Text × NodeEntry fl) → ℕ × ℕ
totals [] = (0, 0)
totals ((id, e) ∷ m) =
    let (ram, vram) = totals m in
    ((e.info.available_memory_bytes + ram) % 2 ^ 64, (e.info.available_vram_bytes + vram) % 2 ^ 64)
