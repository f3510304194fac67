-- ===== src/Swarm/Router/Load.antt =====
-- The load that a router counts, and its queue: crates/hivebear-mesh/src/swarm/router.rs.
use hive_bear.Prelude.{
  ℕ, ◌+◌, ◌-◌, ◌%◌, ◌^◌, ◌≤◌, ◌<◌, ◌≡◌, refl, ap, false, some, List, [], ◌∷◌, map, arith, ltb, All,
  ℕ_discrete,
}
use hive_bear.Prelude.Map.{lookup, lookup-insert_self}
use hive_bear.Prelude.Text.{Text, text_dec}
use hive_bear.Float.{Float}
use hive_bear.Peer.{Uuid}
use hive_bear.Swarm.{SwarmDefinition}
use hive_bear.Swarm.Router.{
  SwarmLoad, QueuedRequest, SwarmRouter, admits, load_of, get_load, change_load, start_request,
  end_request, request_started, request_ended, request_finished, find_admitting, send_or_stop,
  drain_model, drain, try_drain_queue,
}

module _ {fl : Float} (r : SwarmRouter fl) where
  -- The counters of a swarm after a request on it started or ended.
  lookup-request_started :
      (now : ℕ) (id : Uuid) (l : SwarmLoad)
      → lookup ℕ_discrete id r.load ≡ some l
      → lookup ℕ_discrete id (request_started now id r).load ≡ some (start_request now l)
  unfolding request_started change_load
  lookup-request_started now id l h =
      rw (h, lookup-insert_self ℕ_discrete id (start_request now l) r.load) refl

  lookup-request_ended :
      (id : Uuid) (tokens_generated : ℕ) (l : SwarmLoad)
      → lookup ℕ_discrete id r.load ≡ some l
      → lookup ℕ_discrete id (request_ended id tokens_generated r).load
        ≡ some (end_request tokens_generated l)
  unfolding request_ended change_load
  lookup-request_ended id tokens l h =
      rw (h, lookup-insert_self ℕ_discrete id (end_request tokens l) r.load) refl

module _ {fl : Float} (r : SwarmRouter fl) where
  -- A request that starts and finishes leaves the load of its swarm as it was.
  pub request_started-finished :
      (id : Uuid) (l : SwarmLoad) (started finished tokens_generated : ℕ)
      → lookup ℕ_discrete id r.load ≡ some l
      → l.active_requests < 2 ^ 32
      → get_load id (request_finished finished id tokens_generated (request_started started id r)).0
        ≡ some l.active_requests
  unfolding get_load request_finished try_drain_queue
  request_started-finished id l started finished tokens h b =
      let back : ((l.active_requests + 1) % 2 ^ 32 + (2 ^ 32 - 1)) % 2 ^ 32 ≡ l.active_requests =
        omega (arith, b) in
      let ended =
        lookup-request_ended (request_started started id r) id tokens (start_request started l)
          (lookup-request_started r started id l h) in
      rw ended (unfold start_request end_request in ap some back)

  -- Where the load is lost: a request that finishes on a swarm with no active request leaves its load
  -- at 2 ^ 32 - 1, and the swarm is admitted no more, whatever the limit of requests is.
  pub finished_at_zero :
      (swarm : SwarmDefinition fl) (l : SwarmLoad) (now tokens_generated : ℕ)
      → lookup ℕ_discrete swarm.swarm_id r.load ≡ some l
      → l.active_requests ≡ 0
      → r.max_requests_per_swarm < 2 ^ 32
      → let after = (request_finished now swarm.swarm_id tokens_generated r).0 in
        (get_load swarm.swarm_id after ≡ some (2 ^ 32 - 1)) × (admits after swarm ≡ false)
  unfolding get_load request_finished try_drain_queue admits load_of end_request
  finished_at_zero swarm l now tokens h z b =
      let wrapped : (l.active_requests + (2 ^ 32 - 1)) % 2 ^ 32 ≡ 2 ^ 32 - 1 = omega (arith, z) in
      let full : ltb (2 ^ 32 - 1) (request_ended swarm.swarm_id tokens r).max_requests_per_swarm
          ≡ false =
        unfold request_ended in ground (arith, b) in
      rw (lookup-request_ended r swarm.swarm_id tokens l h, wrapped) (refl, rw full refl)

  -- Where the limit is exceeded: the queue drains against the load that was before it. If a swarm of
  -- the model can take one more request, all the queued requests for the model are sent to it.
  pub drain_overcommits :
      (now : ℕ) (queue : List QueuedRequest) (model_id : Text) (swarms : List (SwarmDefinition fl))
      (s : SwarmDefinition fl)
      → lookup text_dec model_id r.swarms ≡ some swarms
      → find_admitting r swarms ≡ some s
      → All (λ q. (q.model_id ≡ model_id) × (now ≤ q.queued_at + 30)) queue
      → drain now r queue ≡ ([], map (λ q. (q.request_id, s.swarm_id)) queue)
  unfolding drain drain_model send_or_stop
  drain_overcommits now [] model_id swarms s h a f = refl
  drain_overcommits now (q ∷ queue) model_id swarms s h a f =
      let waits : ltb 30 (now - q.queued_at) ≡ false = ground (arith, f.0.1) in
      rw (waits, f.0.0, h, a, drain_overcommits now queue model_id swarms s h a f.1) refl
