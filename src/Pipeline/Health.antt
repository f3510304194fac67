-- ===== src/Pipeline/Health.antt =====
-- The health of the peers of a pipeline: crates/hivebear-mesh/src/pipeline/health.rs. `now` is the
-- monotonic clock in milliseconds.
use hive_bear.Prelude.{
  ℕ, zero, suc, ◌+◌, ◌-◌, ◌%◌, ◌^◌, ◌≤◌, ◌<◌, ◌≡◌, refl, Bool, false, Option, none, some, List, [],
  ◌∷◌, ◌++◌, map, arith, length, drop, length-append, ltb, leb, if◌then◌else◌, ℕ_discrete,
}
use hive_bear.Prelude.Map.{lookup, insert, remove, lookup-insert_self}
use hive_bear.Prelude.Map.Distinct.{retain}
use hive_bear.Float.{Float}
use hive_bear.Peer.{NodeId}

pub record PeerHealthState (fl : Float) : Type 0 where
  pub last_ping_sent : Option ℕ
  pub last_pong_received : Option ℕ
  pub consecutive_failures : ℕ
  pub avg_latency_ms : fl.F64
  pub latency_samples : List fl.F64

pub record PeerHealthMonitor (fl : Float) : Type 0 where
  pub states : List (NodeId × PeerHealthState fl)
  pub failure_threshold : ℕ

unfoldable pub fresh_state : (fl : Float) → PeerHealthState fl
fresh_state fl = record {
  last_ping_sent = none;
  last_pong_received = none;
  consecutive_failures = 0;
  avg_latency_ms = fl.literal 0 0;
  latency_samples = [];
}

unfoldable pub sum_f64 : (fl : Float) → fl.F64 → List fl.F64 → fl.F64
sum_f64 fl acc [] = acc
sum_f64 fl acc (x ∷ xs) = sum_f64 fl (fl.add acc x) xs

-- The samples with a new one, at most the last ten.
unfoldable pub push_sample : {A : Type 0} → A → List A → List A
push_sample latency samples =
    let pushed = samples ++ latency ∷ [] in if ltb 10 (length pushed) then drop 1 pushed else pushed

length-push_sample :
    {A : Type 0} (x : A) (xs : List A) → length xs ≤ 10 → length (push_sample x xs) ≤ 10
unfolding push_sample
length-push_sample x xs b =
    ground (arith, length-append xs (x ∷ []), length-drop_one (xs ++ x ∷ []))
  where
    length-drop_one : {A : Type 0} (ys : List A) → length (drop 1 ys) ≤ length ys - 1
    length-drop_one [] = omega arith
    length-drop_one (y ∷ ys) = omega arith

module _ {fl : Float} where
  unfoldable with_threshold : ℕ → PeerHealthMonitor fl
  with_threshold failure_threshold = record { states = []; failure_threshold = failure_threshold }

  -- `entry(key).or_insert_with(...)`, and `get_mut(&key)`.
  unfoldable ensure :
      NodeId
      → List (NodeId × PeerHealthState fl)
      → Option (PeerHealthState fl)
      → List (NodeId × PeerHealthState fl)
  ensure id states none = insert ℕ_discrete id (fresh_state fl) states
  ensure id states (some h) = states

  unfoldable pub change :
      NodeId
      → (PeerHealthState fl → PeerHealthState fl)
      → List (NodeId × PeerHealthState fl)
      → Option (PeerHealthState fl)
      → List (NodeId × PeerHealthState fl)
  change id f states none = states
  change id f states (some h) = insert ℕ_discrete id (f h) states

  unfoldable track_peer : NodeId → PeerHealthMonitor fl → PeerHealthMonitor fl
  track_peer id m = record m { states = ensure id m.states (lookup ℕ_discrete id m.states) }

  unfoldable record_ping_sent : ℕ → NodeId → PeerHealthMonitor fl → PeerHealthMonitor fl
  record_ping_sent now id m = record m {
    states =
        change id (λ h. record h { last_ping_sent = some now }) m.states
          (lookup ℕ_discrete id m.states);
  }

  unfoldable pub measure : ℕ → Option ℕ → PeerHealthState fl → PeerHealthState fl
  measure now none h = h
  measure now (some sent) h =
      let samples = push_sample (fl.of_nat (now - sent)) h.latency_samples in
      record h {
        latency_samples = samples;
        avg_latency_ms = fl.div (sum_f64 fl (fl.literal 0 0) samples) (fl.of_nat (length samples));
      }

  unfoldable pub pong : ℕ → PeerHealthState fl → PeerHealthState fl
  pong now h = record (measure now h.last_ping_sent h) {
    last_pong_received = some now;
    consecutive_failures = 0;
  }

  unfoldable pub record_pong_received : ℕ → NodeId → PeerHealthMonitor fl → PeerHealthMonitor fl
  record_pong_received now id m = record m {
    states = change id (pong now) m.states (lookup ℕ_discrete id m.states);
  }

  unfoldable pub fail : PeerHealthState fl → PeerHealthState fl
  fail h = record h { consecutive_failures = (h.consecutive_failures + 1) % 2 ^ 32 }

  unfoldable pub record_ping_failure : NodeId → PeerHealthMonitor fl → PeerHealthMonitor fl
  record_ping_failure id m = record m {
    states = change id fail m.states (lookup ℕ_discrete id m.states);
  }

  abbrev exceeds : ℕ → Option (PeerHealthState fl) → Bool
  exceeds threshold none = false
  exceeds threshold (some h) = leb threshold h.consecutive_failures

  unfoldable pub is_dead : NodeId → PeerHealthMonitor fl → Bool
  is_dead id m = exceeds m.failure_threshold (lookup ℕ_discrete id m.states)

  unfoldable dead_peers : PeerHealthMonitor fl → List NodeId
  dead_peers m =
      map (λ e. e.0) (retain (λ k h. leb m.failure_threshold h.consecutive_failures) m.states)

  unfoldable pub remove_peer : NodeId → PeerHealthMonitor fl → PeerHealthMonitor fl
  remove_peer id m = record m { states = remove ℕ_discrete id m.states }

  abbrev latency_of : Option (PeerHealthState fl) → Option fl.F64
  latency_of none = none
  latency_of (some h) = some h.avg_latency_ms

  unfoldable get_latency : NodeId → PeerHealthMonitor fl → Option fl.F64
  get_latency id m = latency_of (lookup ℕ_discrete id m.states)

  -- Failures of a peer that follow one another.
  unfoldable pub failures : ℕ → NodeId → PeerHealthMonitor fl → PeerHealthMonitor fl
  failures zero id m = m
  failures (suc n) id m = record_ping_failure id (failures n id m)

  lookup-record_ping_failure :
      (id : NodeId) (m : PeerHealthMonitor fl) (h : PeerHealthState fl)
      → lookup ℕ_discrete id m.states ≡ some h
      → lookup ℕ_discrete id (record_ping_failure id m).states ≡ some (fail h)
  unfolding record_ping_failure change
  lookup-record_ping_failure id m h e =
      rw (e, lookup-insert_self ℕ_discrete id (fail h) m.states) refl

  lookup-record_pong_received :
      (now : ℕ) (id : NodeId) (m : PeerHealthMonitor fl) (h : PeerHealthState fl)
      → lookup ℕ_discrete id m.states ≡ some h
      → lookup ℕ_discrete id (record_pong_received now id m).states ≡ some (pong now h)
  unfolding record_pong_received change
  lookup-record_pong_received now id m h e =
      rw (e, lookup-insert_self ℕ_discrete id (pong now h) m.states) refl

  failures-threshold :
      (n : ℕ) (id : NodeId) (m : PeerHealthMonitor fl)
      → (failures n id m).failure_threshold ≡ m.failure_threshold
  unfolding failures record_ping_failure
  failures-threshold zero id m = refl
  failures-threshold (suc n) id m = failures-threshold n id m

  failures-count :
      (n : ℕ) (id : NodeId) (m : PeerHealthMonitor fl) (h : PeerHealthState fl)
      → lookup ℕ_discrete id m.states ≡ some h
      → n + h.consecutive_failures < 2 ^ 32
      → (g : PeerHealthState fl) × (lookup ℕ_discrete id (failures n id m).states ≡ some g)
        × (g.consecutive_failures ≡ n + h.consecutive_failures)
  unfolding failures
  failures-count zero id m h e b = (h, e, omega arith)
  failures-count (suc n) id m h e b =
      let v = failures-count n id m h e (omega (arith, b)) in
      (fail v.0, lookup-record_ping_failure id (failures n id m) v.0 v.1, counted v.0 v.2)
    where
      counted :
          (g : PeerHealthState fl)
          → g.consecutive_failures ≡ n + h.consecutive_failures
          → (fail g).consecutive_failures ≡ suc n + h.consecutive_failures
      counted g c = unfold fail in omega (arith, c, b)

  -- A tracked peer that answered a ping, then failed `n` pings, fewer than 2 ^ 32, is dead if and only
  -- if `n` is the threshold or more, whatever failures it had before the answer.
  pub dead_after_failures :
      (n now : ℕ) (id : NodeId) (m : PeerHealthMonitor fl) (h : PeerHealthState fl)
      → lookup ℕ_discrete id m.states ≡ some h
      → n < 2 ^ 32
      → is_dead id (failures n id (record_pong_received now id m)) ≡ leb m.failure_threshold n
  unfolding is_dead
  dead_after_failures n now id m h e b =
      let v =
        failures-count n id (record_pong_received now id m) (pong now h)
          (lookup-record_pong_received now id m h e) (unfold pong in omega (arith, b)) in
      let c : v.0.consecutive_failures ≡ n = unfold pong in omega (arith, v.2) in
      let t : (record_pong_received now id m).failure_threshold ≡ m.failure_threshold =
        unfold record_pong_received in refl in
      rw (v.1, c, failures-threshold n id (record_pong_received now id m), t) refl

  -- No pong makes the list of samples longer than ten.
  pub pong-samples :
      (now : ℕ) (h : PeerHealthState fl)
      → length h.latency_samples ≤ 10
      → length (pong now h).latency_samples ≤ 10
  unfolding pong
  pong-samples now h b = measured h.last_ping_sent
    where
      measured : (sent : Option ℕ) → length (measure now sent h).latency_samples ≤ 10
      measured none = unfold measure in b
      measured (some t) =
          unfold measure in length-push_sample (fl.of_nat (now - t)) h.latency_samples b
