-- ===== src/Swarm/Rebalance/Leader.antt =====
-- Who leads a swarm after a departure: crates/hivebear-mesh/src/swarm/rebalance.rs.
use mathlib.Core.Path.{subst}
use hive_bear.Prelude.{
  ℕ, zero, suc, ◌-◌, ◌≤◌, ◌<◌, ◌≡◌, ◌≢◌, refl, ap, Bool, true, false, not, ◌&&◌, Option, none, some,
  List, [], ◌∷◌, map, arith, length, ltb, ◌==◌, if◌then◌else◌, Bool-cases, Option-cases, inl, inr,
}
use hive_bear.Float.{Float}
use hive_bear.MeshError.{Result, ok, err}
use hive_bear.Peer.{NodeId}
use hive_bear.Swarm.{
  SwarmRole, SwarmStatus, SwarmMember, SwarmDefinition, is_leader, is_standby, active_capacity,
  active_member_count, recalculate_capacity,
}
use hive_bear.Swarm.Rebalance.{
  RebalanceAction, redistributed, standby_promoted, disbanded, none_active, spread,
  redistribute_layers, position, remove_at, set_role, peer_at, has_no_leader, adjusted_index,
  report_promotion, without_standby, promote, after_removal, handle_member_departure,
}
use hive_bear.Swarm.Rebalance.Spread.{who, spread-roles}

abbrev no_leader_among : List (NodeId × SwarmRole) → Bool
no_leader_among [] = true
no_leader_among (w ∷ ws) = not (is_leader w.1) && no_leader_among ws

module _ {fl : Float} where
  -- Whether the swarm that an operation leaves has no leader.
  abbrev pub leaderless : SwarmDefinition fl × Result RebalanceAction → Bool
  leaderless r = has_no_leader r.0.members

  has_no_leader-who : (ms : List (SwarmMember fl)) → has_no_leader ms ≡ no_leader_among (map who ms)
  has_no_leader-who [] = refl
  has_no_leader-who (m ∷ ms) = rw (has_no_leader-who ms) refl

  has_no_leader-spread :
      (total_cap total : ℕ) (ms : List (SwarmMember fl)) (cursor : ℕ)
      → has_no_leader (spread total_cap total ms cursor).0 ≡ has_no_leader ms
  has_no_leader-spread total_cap total ms cursor =
      rw
        (
          has_no_leader-who (spread total_cap total ms cursor).0,
          has_no_leader-who ms,
          spread-roles total_cap total ms cursor,
        )
        refl

  -- A redistribution changes no role.
  redistribute_layers-leaderless :
      (swarm : SwarmDefinition fl) (total : ℕ)
      → leaderless (redistribute_layers swarm total) ≡ has_no_leader swarm.members
  unfolding redistribute_layers recalculate_capacity
  redistribute_layers-leaderless swarm total = elim (Bool-cases (none_active swarm.members)) [
    | inl e ↦ rw e refl
    | inr e ↦ elim (Bool-cases (active_capacity swarm.members == 0)) [
      | inl z ↦ rw (e, z) refl
      | inr nz ↦
          rw (e, nz) (has_no_leader-spread (active_capacity swarm.members) total swarm.members 0)
    ]
  ]

  report_promotion-leaderless :
      (peer : NodeId) (r : SwarmDefinition fl × Result RebalanceAction)
      → leaderless (report_promotion peer r) ≡ leaderless r
  unfolding report_promotion
  report_promotion-leaderless peer (s, ok (redistributed as_)) = refl
  report_promotion-leaderless peer (s, ok (standby_promoted p as_)) = refl
  report_promotion-leaderless peer (s, ok disbanded) = refl
  report_promotion-leaderless peer (s, err e) = refl

  -- The member at the index is the first that passes the test.
  abbrev First : (SwarmMember fl → Bool) → List (SwarmMember fl) → ℕ → Type 0
  First p [] i = ⊥
  First p (m ∷ ms) zero = p m ≡ true
  First p (m ∷ ms) (suc i) = (p m ≡ false) × First p ms i

  position-First :
      (p : SwarmMember fl → Bool) (ms : List (SwarmMember fl)) (i : ℕ)
      → position p ms ≡ some i
      → First p ms i
  unfolding position
  position-First p [] i h = absurd (ground (arith, h))
  position-First p (m ∷ ms) zero h = elim (Option-cases (position p ms)) [
    | inl e ↦ elim (Bool-cases (p m)) [ inl y ↦ y | inr n ↦ absurd (ground (arith, e, n, h)) ]
    | inr e ↦ elim (Bool-cases (p m)) [ inl y ↦ y | inr n ↦ absurd (ground (arith, e.1, n, h)) ]
  ]
  position-First p (m ∷ ms) (suc i) h = elim (Bool-cases (p m)) [
    | inl y ↦ absurd (ground (arith, y, h))
    | inr n ↦ elim (Option-cases (position p ms)) [
      | inl e ↦ absurd (ground (arith, e, n, h))
      | inr e ↦ (n, position-First p ms i (ground (arith, e.1, n, h)))
    ]
  ]

  -- A first member stays the first when another one is removed, at the adjusted index.
  First-remove_at :
      (p : SwarmMember fl → Bool) (ms : List (SwarmMember fl)) (d i : ℕ)
      → First p ms i
      → d ≢ i
      → First p (remove_at d ms) (adjusted_index (some d) i)
  unfolding remove_at adjusted_index
  First-remove_at p [] d i f ne = f
  First-remove_at p (m ∷ ms) zero zero f ne = absurd (ne refl)
  First-remove_at p (m ∷ ms) zero (suc i) f ne =
      let z : suc i - 1 ≡ i = omega arith in
      let t : ltb 0 (suc i) ≡ true = ground arith in rw (t, z) f.1
  First-remove_at p (m ∷ ms) (suc d) zero f ne =
      let t : ltb (suc d) 0 ≡ false = ground arith in rw t f
  First-remove_at p (m ∷ ms) (suc d) (suc i) f ne =
      let e : adjusted_index (some (suc d)) (suc i) ≡ suc (adjusted_index (some d) i) =
        ground arith in
      rw e (f.0, First-remove_at p ms d i f.1 (λ q. ne (ap suc q)))

  set_role-leads :
      (p : SwarmMember fl → Bool) (ms : List (SwarmMember fl)) (i : ℕ)
      → First p ms i
      → has_no_leader (set_role i SwarmRole.leader ms) ≡ false
  unfolding set_role
  set_role-leads p [] i f = absurd f
  set_role-leads p (m ∷ ms) zero f = refl
  set_role-leads p (m ∷ ms) (suc i) f = rw (set_role-leads p ms i f.1) (ground arith)

  -- Making the first standby a worker leaves the leaders.
  set_role-worker :
      (ms : List (SwarmMember fl)) (i : ℕ)
      → First (λ m. is_standby m.role) ms i
      → has_no_leader (set_role i SwarmRole.worker ms) ≡ has_no_leader ms
  unfolding set_role
  set_role-worker [] i f = absurd f
  set_role-worker (m ∷ ms) zero f = rw (standby_follows m.role f) refl
    where
      standby_follows : (r : SwarmRole) → is_standby r ≡ true → is_leader r ≡ false
      standby_follows SwarmRole.leader e = absurd (ground (arith, e))
      standby_follows SwarmRole.worker e = refl
      standby_follows SwarmRole.standby e = refl
  set_role-worker (m ∷ ms) (suc i) f = rw (set_role-worker ms i f.1) refl

  peer_at-First :
      (p : SwarmMember fl → Bool) (ms : List (SwarmMember fl)) (i : ℕ)
      → First p ms i
      → (id : NodeId) × (peer_at i ms ≡ some id)
  unfolding peer_at
  peer_at-First p [] i f = absurd f
  peer_at-First p (m ∷ ms) zero f = (m.peer_id, refl)
  peer_at-First p (m ∷ ms) (suc i) f = peer_at-First p ms i f.1

  without_standby-leads :
      (swarm : SwarmDefinition fl) (total : ℕ)
      → 0 < length swarm.members
      → leaderless (without_standby swarm (has_no_leader swarm.members) total) ≡ false
  unfolding without_standby set_role
  without_standby-leads swarm total h = elim (Bool-cases (has_no_leader swarm.members)) [
    | inl e ↦ rw e (ends (set_role 0 SwarmRole.leader swarm.members) (first_leads swarm.members h))
    | inr e ↦ rw e (ends swarm.members e)
  ]
    where
      first_leads :
          (ms : List (SwarmMember fl))
          → 0 < length ms
          → has_no_leader (set_role 0 SwarmRole.leader ms) ≡ false
      first_leads [] k = absurd (omega (arith, k))
      first_leads (m ∷ ms) k = refl

      ends :
          (ms : List (SwarmMember fl))
          → has_no_leader ms ≡ false
          → let led = record swarm { members = ms } in
            leaderless (
              if ltb (active_member_count led) 2
              then (record led { status = SwarmStatus.disbanded }, ok disbanded)
              else redistribute_layers (record led { status = SwarmStatus.degraded }) total)
            ≡ false
      ends ms e =
          let led = record swarm { members = ms } in
          elim (Bool-cases (ltb (active_member_count led) 2)) [
            | inl few ↦ rw few e
            | inr enough ↦
                rw
                  (
                    enough,
                    redistribute_layers-leaderless (record led { status = SwarmStatus.degraded })
                        total,
                  )
                  e
          ]

  length-remove_at :
      (d : ℕ) (ms : List (SwarmMember fl)) → length ms ≤ suc (length (remove_at d ms))
  unfolding remove_at
  length-remove_at d [] = omega arith
  length-remove_at zero (m ∷ ms) = omega arith
  length-remove_at (suc d) (m ∷ ms) = omega (arith, length-remove_at d ms)

  promoted-leads :
      (swarm : SwarmDefinition fl) (i total : ℕ) (departed : Option ℕ)
      → First (λ m. is_standby m.role) swarm.members (adjusted_index departed i)
      → leaderless (after_removal swarm (some i) departed total) ≡ false
  unfolding after_removal promote
  promoted-leads swarm i total departed f =
      let p = peer_at-First (λ m. is_standby m.role) swarm.members (adjusted_index departed i) f in
      elim (Bool-cases (has_no_leader swarm.members)) [
        | inl e ↦
            rw (p.1, e, report_promotion-leaderless, redistribute_layers-leaderless)
              (set_role-leads (λ m. is_standby m.role) swarm.members (adjusted_index departed i) f)
        | inr e ↦
            rw
              (
                p.1,
                e,
                report_promotion-leaderless,
                redistribute_layers-leaderless,
                set_role-worker swarm.members (adjusted_index departed i) f,
              )
              e
      ]

  -- The swarm that a departure leaves has a leader, disbanded or not and whatever the redistribution
  -- answers, if it had two members or more and the departing peer is not its first standby.
  pub departure_leads :
      (swarm : SwarmDefinition fl) (peer : NodeId) (total_layers : ℕ)
      → 2 ≤ length swarm.members
      → ((i : ℕ)
          → position (λ m. is_standby m.role) swarm.members ≡ some i
          → position (λ m. m.peer_id == peer) swarm.members ≢ some i)
      → leaderless (handle_member_departure swarm peer total_layers) ≡ false
  unfolding handle_member_departure
  departure_leads swarm peer total two other =
      let ms = swarm.members in
      elim (Option-cases (position (λ m. is_standby m.role) ms)) [
        | inl none_waits ↦ elim (Option-cases (position (λ m. m.peer_id == peer) ms)) [
          | inl stays ↦
              rw (none_waits, stays) (without_standby-leads swarm total (omega (arith, two)))
          | inr d ↦
              rw (none_waits, d.1)
                (without_standby-leads (record swarm { members = remove_at d.0 ms }) total
                  (omega (arith, two, length-remove_at d.0 ms)))
        ]
        | inr s ↦
            let f = position-First (λ m. is_standby m.role) ms s.0 s.1 in
            elim (Option-cases (position (λ m. m.peer_id == peer) ms)) [
              | inl stays ↦
                  rw (s.1, stays) (promoted-leads swarm s.0 total none (unfold adjusted_index in f))
              | inr d ↦
                  rw (s.1, d.1)
                    (promoted-leads (record swarm { members = remove_at d.0 ms }) s.0 total
                      (some d.0)
                      (First-remove_at (λ m. is_standby m.role) ms d.0 s.0 f
                        (λ q.
                          other s.0 s.1
                            (subst (λ x. position (λ m. m.peer_id == peer) ms ≡ some x) q d.1))))
            ]
      ]

  -- Where the leadership is lost: if the departing peer is a standby that stands first, and the next
  -- member is the only leader, that leader is made a worker, and the swarm has no leader.
  pub leader_demoted :
      (swarm : SwarmDefinition fl) (total_layers : ℕ) (standby leader : SwarmMember fl)
      (rest : List (SwarmMember fl))
      → swarm.members ≡ standby ∷ leader ∷ rest
      → is_standby standby.role ≡ true
      → is_leader leader.role ≡ true
      → has_no_leader rest ≡ true
      → leaderless (handle_member_departure swarm standby.peer_id total_layers) ≡ true
  unfolding handle_member_departure position remove_at after_removal promote adjusted_index peer_at
      set_role
  leader_demoted swarm total_layers standby leader rest e s l others =
      let same : (standby.peer_id == standby.peer_id) ≡ true = ground arith in
      rw (e, s, same, e, l, report_promotion-leaderless, redistribute_layers-leaderless) others
