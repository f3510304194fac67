-- ===== src/Swarm/Router.antt =====
-- Routing of requests to swarms: crates/hivebear-mesh/src/swarm/router.rs. The times are seconds. What
-- `select_swarm` and the two counters read of a `DashMap` is its entry of a key; a request that leaves
-- the queue with a swarm is listed with it, which stands for the message on its `oneshot` channel.
pub mod Select
pub mod Load
use hive_bear.Prelude.{
  ℕ, ◌+◌, ◌-◌, ◌%◌, ◌^◌, Bool, true, false, not, ◌&&◌, ◌||◌, Option, none, some, List, [], ◌∷◌,
  ◌++◌, map, length, keep, ltb, leb, ◌==◌, if◌then◌else◌, ℕ_discrete,
}
use hive_bear.Prelude.Map.{lookup, insert, remove}
use hive_bear.Prelude.Map.Distinct.{retain}
use hive_bear.Prelude.Text.{Text, text_dec, codes}
use hive_bear.Float.{Float}
use hive_bear.MeshError.{MeshError, Result, ok, err}
use hive_bear.Peer.{NodeId, Uuid}
use hive_bear.Swarm.{SwarmStatus, SwarmDefinition}

-- `active_requests` is an `AtomicU32`, `tokens_generated_total` an `AtomicU64`.
pub record SwarmLoad : Type 0 where
  pub active_requests : ℕ
  pub tokens_generated_total : ℕ
  pub last_request_at : ℕ

pub record QueuedRequest : Type 0 where
  pub request_id : Uuid
  pub model_id : Text
  pub queued_at : ℕ

pub record SwarmRouter (fl : Float) : Type 0 where
  pub swarms : List (Text × List (SwarmDefinition fl))
  pub load : List (Uuid × SwarmLoad)
  pub queue : List QueuedRequest
  pub max_queue_depth : ℕ
  pub max_requests_per_swarm : ℕ
  pub contributing_peers : List (NodeId × Bool)

-- `SwarmStatus::Ready | SwarmStatus::Busy`.
abbrev serves_requests : SwarmStatus → Bool
serves_requests SwarmStatus.forming = false
serves_requests SwarmStatus.ready = true
serves_requests SwarmStatus.busy = true
serves_requests SwarmStatus.degraded = false
serves_requests SwarmStatus.disbanded = false

unfoldable pub or_empty : {A : Type 0} → Option (List A) → List A
or_empty none = []
or_empty (some xs) = xs

unfoldable health_factor : (fl : Float) → SwarmStatus → fl.F64
health_factor fl SwarmStatus.forming = fl.literal 0 0
health_factor fl SwarmStatus.ready = fl.literal 1 0
health_factor fl SwarmStatus.busy = fl.literal 0 0
health_factor fl SwarmStatus.degraded = fl.literal 5 1
health_factor fl SwarmStatus.disbanded = fl.literal 0 0

-- `f64::max`, of numbers.
abbrev max_f64 : (fl : Float) → fl.F64 → fl.F64 → fl.F64
max_f64 fl a b = if fl.less_eq b a then a else b

abbrev is_there : {A : Type 0} → Option A → Bool
is_there none = false
is_there (some a) = true

-- `map(|l| l.active_requests.load(...))`, without and with `unwrap_or(0)`.
abbrev requests_of : Option SwarmLoad → Option ℕ
requests_of none = none
requests_of (some l) = some l.active_requests

abbrev or_zero : Option ℕ → ℕ
or_zero none = 0
or_zero (some n) = n

-- A change of the counters of a swarm, if they are there.
unfoldable pub change_load :
    Uuid
    → (SwarmLoad → SwarmLoad)
    → List (Uuid × SwarmLoad)
    → Option SwarmLoad
    → List (Uuid × SwarmLoad)
change_load id f load none = load
change_load id f load (some l) = insert ℕ_discrete id (f l) load

-- `entry(swarm_id).or_insert_with(...)`.
unfoldable ensure_load :
    Uuid → SwarmLoad → List (Uuid × SwarmLoad) → Option SwarmLoad → List (Uuid × SwarmLoad)
ensure_load id fresh load none = insert ℕ_discrete id fresh load
ensure_load id fresh load (some l) = load

unfoldable pub start_request : ℕ → SwarmLoad → SwarmLoad
start_request now l = record l {
  active_requests = (l.active_requests + 1) % 2 ^ 32;
  last_request_at = now;
}

-- `fetch_sub(1)` wraps around at 0.
unfoldable pub end_request : ℕ → SwarmLoad → SwarmLoad
end_request tokens_generated l = record l {
  active_requests = (l.active_requests + (2 ^ 32 - 1)) % 2 ^ 32;
  tokens_generated_total = (l.tokens_generated_total + tokens_generated) % 2 ^ 64;
}

-- A drain that sends the request to a swarm, or stops at it if there is none.
unfoldable pub send_or_stop :
    {fl : Float}
    → QueuedRequest
    → List QueuedRequest
    → List QueuedRequest × List (Uuid × Uuid)
    → Option (SwarmDefinition fl)
    → List QueuedRequest × List (Uuid × Uuid)
send_or_stop q rest later none = (q ∷ rest, [])
send_or_stop q rest later (some s) = (later.0, (q.request_id, s.swarm_id) ∷ later.1)

module _ {fl : Float} where
  open fl use {literal, of_nat, add, mul, div, less, less_eq}

  unfoldable with_limits : ℕ → ℕ → SwarmRouter fl
  with_limits max_queue_depth max_requests_per_swarm = record {
    swarms = [];
    load = [];
    queue = [];
    max_queue_depth = max_queue_depth;
    max_requests_per_swarm = max_requests_per_swarm;
    contributing_peers = [];
  }

  unfoldable register_swarm : ℕ → SwarmDefinition fl → SwarmRouter fl → SwarmRouter fl
  register_swarm now swarm r =
      let fresh : SwarmLoad = record {
        active_requests = 0;
        tokens_generated_total = 0;
        last_request_at = now;
      } in
      let load =
        ensure_load swarm.swarm_id fresh r.load (lookup ℕ_discrete swarm.swarm_id r.load) in
      let known = or_empty (lookup text_dec swarm.model_id r.swarms) in
      record r {
        load = load;
        swarms = insert text_dec swarm.model_id (known ++ swarm ∷ []) r.swarms;
      }

  abbrev is_empty : List (SwarmDefinition fl) → Bool
  is_empty [] = true
  is_empty (s ∷ ss) = false

  unfoldable unregister_swarm : Uuid → SwarmRouter fl → SwarmRouter fl
  unregister_swarm id r = record r {
    load = remove ℕ_discrete id r.load;
    swarms =
        retain (λ k v. not (is_empty v))
          (map (λ e. (e.0, keep (λ s. not (s.swarm_id == id)) e.1)) r.swarms);
  }

  unfoldable pub set_contributing : NodeId → Bool → SwarmRouter fl → SwarmRouter fl
  set_contributing peer true r = record r {
    contributing_peers = insert ℕ_discrete peer true r.contributing_peers;
  }
  set_contributing peer false r = record r {
    contributing_peers = remove ℕ_discrete peer r.contributing_peers;
  }

  unfoldable pub is_contributing : NodeId → SwarmRouter fl → Bool
  is_contributing peer r = is_there (lookup ℕ_discrete peer r.contributing_peers)

  unfoldable pub get_load : Uuid → SwarmRouter fl → Option ℕ
  get_load id r = requests_of (lookup ℕ_discrete id r.load)

  -- The load of a swarm, 0 where the router has none.
  unfoldable pub load_of : Uuid → SwarmRouter fl → ℕ
  unfolding get_load
  load_of id r = or_zero (get_load id r)

  unfoldable pub score : SwarmRouter fl → SwarmDefinition fl → fl.F64
  unfolding health_factor load_of
  score r swarm =
      mul
        (mul (div (literal 1 0) (add (of_nat (load_of swarm.swarm_id r)) (literal 1 0)))
          (max_f64 fl swarm.estimated_tok_s (literal 1 0)))
        (health_factor fl swarm.status)

  -- A swarm that the loop of `select_swarm`, or the search of `try_drain_queue`, does not pass over.
  unfoldable pub admits : SwarmRouter fl → SwarmDefinition fl → Bool
  admits r swarm =
      ltb (load_of swarm.swarm_id r) r.max_requests_per_swarm && serves_requests swarm.status

  -- The better of the best swarm so far and one that is admitted.
  unfoldable pub better :
      SwarmDefinition fl
      → fl.F64
      → Option (SwarmDefinition fl × fl.F64)
      → Option (SwarmDefinition fl × fl.F64)
  better swarm s none = some (swarm, s)
  better swarm s (some best) = if less_eq s best.1 then some best else some (swarm, s)

  unfoldable pub best_swarm :
      SwarmRouter fl
      → List (SwarmDefinition fl)
      → Option (SwarmDefinition fl × fl.F64)
      → Option (SwarmDefinition fl × fl.F64)
  best_swarm r [] best = best
  best_swarm r (swarm ∷ rest) best =
      best_swarm r rest (if admits r swarm then better swarm (score r swarm) best else best)

  unfoldable pub or_unavailable :
      Text → Option (SwarmDefinition fl × fl.F64) → Result (SwarmDefinition fl)
  or_unavailable model_id none = err (MeshError.no_peers_available model_id)
  or_unavailable model_id (some best) = ok best.0

  unfoldable pub select_swarm : Text → NodeId → SwarmRouter fl → Result (SwarmDefinition fl)
  select_swarm model_id requester r =
      if not (is_contributing requester r)
      then err (MeshError.auth (codes "You must contribute to use the network."))
      else or_unavailable model_id
          (best_swarm r (or_empty (lookup text_dec model_id r.swarms)) none)

  unfoldable pub request_started : ℕ → Uuid → SwarmRouter fl → SwarmRouter fl
  request_started now id r = record r {
    load = change_load id (start_request now) r.load (lookup ℕ_discrete id r.load);
  }

  -- The part of `request_finished` before the queue is drained.
  unfoldable pub request_ended : Uuid → ℕ → SwarmRouter fl → SwarmRouter fl
  request_ended id tokens_generated r = record r {
    load = change_load id (end_request tokens_generated) r.load (lookup ℕ_discrete id r.load);
  }

  unfoldable pub find_admitting :
      SwarmRouter fl → List (SwarmDefinition fl) → Option (SwarmDefinition fl)
  find_admitting r [] = none
  find_admitting r (s ∷ ss) = if admits r s then some s else find_admitting r ss

  -- A request for a model that is not there is dropped.
  unfoldable pub drain_model :
      SwarmRouter fl
      → QueuedRequest
      → List QueuedRequest
      → List QueuedRequest × List (Uuid × Uuid)
      → Option (List (SwarmDefinition fl))
      → List QueuedRequest × List (Uuid × Uuid)
  unfolding send_or_stop
  drain_model r q rest later none = later
  drain_model r q rest later (some swarms) = send_or_stop q rest later (find_admitting r swarms)

  -- The loop of `try_drain_queue`: the requests that stay, and those that were sent to a swarm.
  unfoldable pub drain :
      ℕ → SwarmRouter fl → List QueuedRequest → List QueuedRequest × List (Uuid × Uuid)
  unfolding drain_model
  drain now r [] = ([], [])
  drain now r (q ∷ rest) =
      let later = drain now r rest in
      if ltb 30 (now - q.queued_at)
      then later
      else drain_model r q rest later (lookup text_dec q.model_id r.swarms)

  unfoldable pub try_drain_queue : ℕ → SwarmRouter fl → SwarmRouter fl × List (Uuid × Uuid)
  try_drain_queue now r =
      let drained = drain now r r.queue in (record r { queue = drained.0 }, drained.1)

  unfoldable pub request_finished :
      ℕ → Uuid → ℕ → SwarmRouter fl → SwarmRouter fl × List (Uuid × Uuid)
  request_finished now id tokens_generated r =
      try_drain_queue now (request_ended id tokens_generated r)

  unfoldable available_models : SwarmRouter fl → List (Text × ℕ)
  available_models r =
      keep (λ e. ltb 0 e.1)
        (map (λ e. (e.0, length (keep (λ s. serves_requests s.status) e.1))) r.swarms)

  unfoldable count_swarms : List (Text × List (SwarmDefinition fl)) → ℕ
  count_swarms [] = 0
  count_swarms (e ∷ rest) = length e.1 + count_swarms rest

  unfoldable swarm_count : SwarmRouter fl → ℕ
  unfolding count_swarms
  swarm_count r = count_swarms r.swarms
