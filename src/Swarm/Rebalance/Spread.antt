-- ===== src/Swarm/Rebalance/Spread.antt =====
-- What `redistribute_layers` gives: crates/hivebear-mesh/src/swarm/rebalance.rs.

use hive_bear.Prelude.{
  ℕ, ◌+◌, ◌-◌, ◌≤◌, ◌<◌, ◌≡◌, refl, ap, true, false, List, [], ◌∷◌, map, arith, length, take, leb,
  ◌==◌, Bool-cases, inl, inr,
}
use hive_bear.Float.{Float}
use hive_bear.MeshError.{Result, ok, err}
use hive_bear.Peer.{NodeId}
use hive_bear.Scheduler.{Range, share_of}
use hive_bear.Swarm.{
  SwarmRole, SwarmMember, SwarmDefinition, is_standby, active_members, active_member_count,
  active_capacity, recalculate_capacity,
}
use hive_bear.Swarm.Rebalance.{
  RebalanceAction, redistributed, standby_promoted, disbanded, none_active, spread,
  redistribute_layers,
}

-- The ranges follow one another from the first layer to the last, and none is empty.
abbrev Tiles : ℕ → ℕ → List (NodeId × Range) → Type 0
Tiles from to [] = from ≡ to
Tiles from to (a ∷ rest) = (a.1.first ≡ from) × (from < a.1.stop) × Tiles a.1.stop to rest

share_of-bounds :
    (fl : Float) (total_cap total c cursor : ℕ)
    → cursor < total
    → (0 < share_of fl 1 total_cap total c false cursor)
      × (cursor + share_of fl 1 total_cap total c false cursor ≤ total)
unfolding share_of
share_of-bounds fl total_cap total c cursor h = (omega arith, omega arith)

share_of-last :
    (fl : Float) (total_cap total c cursor : ℕ)
    → share_of fl 1 total_cap total c true cursor ≡ total - cursor
unfolding share_of
share_of-last fl total_cap total c cursor = refl

module _ {fl : Float} where
  -- The assignment that a member holds.
  abbrev held : SwarmMember fl → NodeId × Range
  held m = (m.peer_id, m.assigned_layers)

  -- Who a member is, and its role.
  abbrev pub who : SwarmMember fl → NodeId × SwarmRole
  who m = (m.peer_id, m.role)

  spread-none_active :
      (total_cap total : ℕ) (ms : List (SwarmMember fl)) (cursor : ℕ)
      → none_active ms ≡ true
      → (spread total_cap total ms cursor).1 ≡ []
  unfolding spread
  spread-none_active total_cap total [] cursor h = refl
  spread-none_active total_cap total (m ∷ ms) cursor h = elim (Bool-cases (is_standby m.role)) [
    | inl e ↦ rw e (spread-none_active total_cap total ms cursor (rw e at h))
    | inr e ↦ absurd (ground (arith, e, h))
  ]

  pub spread-Tiles :
      (total_cap total : ℕ) (ms : List (SwarmMember fl)) (cursor : ℕ)
      → cursor ≤ total
      → none_active ms ≡ false
      → Tiles cursor total (spread total_cap total ms cursor).1
  unfolding spread
  spread-Tiles total_cap total [] cursor le h = absurd (ground (arith, h))
  spread-Tiles total_cap total (m ∷ ms) cursor le h = elim (Bool-cases (is_standby m.role)) [
    | inl e ↦ rw e (spread-Tiles total_cap total ms cursor le (rw e at h))
    | inr e ↦ elim (Bool-cases (leb total cursor)) [
      | inl over ↦ rw (e, over) (ground (arith, over, le))
      | inr more ↦
          let lt : cursor < total = ground (arith, more) in
          elim (Bool-cases (none_active ms)) [
            | inl last ↦
                rw
                  (
                    e,
                    more,
                    last,
                    share_of-last,
                    spread-none_active total_cap total ms (cursor + (total - cursor)) last,
                  )
                  (refl, omega arith, omega arith)
            | inr others ↦
                let b = share_of-bounds fl total_cap total m.capacity_bytes cursor lt in
                rw (e, more, others)
                  (
                    refl,
                    omega (arith, b.0),
                    spread-Tiles total_cap total ms
                        (cursor + share_of fl 1 total_cap total m.capacity_bytes false cursor) b.1
                        others,
                  )
          ]
    ]
  ]

  -- The new assignments are what the first members of the active ones hold.
  pub spread-held :
      (total_cap total : ℕ) (ms : List (SwarmMember fl)) (cursor : ℕ)
      → let r = spread total_cap total ms cursor in
        (r.1 ≡ take (length r.1) (map held (active_members r.0)))
        × (length r.1 ≤ length (active_members ms))
  unfolding spread active_members
  spread-held total_cap total [] cursor = (refl, omega arith)
  spread-held total_cap total (m ∷ ms) cursor = elim (Bool-cases (is_standby m.role)) [
    | inl e ↦ rw (e, e) (spread-held total_cap total ms cursor)
    | inr e ↦ elim (Bool-cases (leb total cursor)) [
      | inl over ↦ rw (e, over) (refl, omega arith)
      | inr more ↦
          let share = share_of fl 1 total_cap total m.capacity_bytes (none_active ms) cursor in
          let v = spread-held total_cap total ms (cursor + share) in
          rw (e, more, e)
            (
              ap
                  (λ (l : List (NodeId × Range)).
                    held (record m {
                      assigned_layers = record { first = cursor; stop = cursor + share };
                    })
                    ∷ l)
                  v.0,
              omega (arith, v.1),
            )
    ]
  ]

  -- Neither who the members are nor their roles change.
  pub spread-roles :
      (total_cap total : ℕ) (ms : List (SwarmMember fl)) (cursor : ℕ)
      → map who (spread total_cap total ms cursor).0 ≡ map who ms
  unfolding spread
  spread-roles total_cap total [] cursor = refl
  spread-roles total_cap total (m ∷ ms) cursor = elim (Bool-cases (is_standby m.role)) [
    | inl e ↦ rw (e, spread-roles total_cap total ms cursor) refl
    | inr e ↦ elim (Bool-cases (leb total cursor)) [
      | inl over ↦ rw (e, over) refl
      | inr more ↦
          let share = share_of fl 1 total_cap total m.capacity_bytes (none_active ms) cursor in
          rw (e, more, spread-roles total_cap total ms (cursor + share)) refl
    ]
  ]

  -- A redistribution that succeeded: the new assignments have no gap and no empty range, they are what
  -- the first active members now hold, and who the members are and their roles are as before.
  abbrev pub Redistributes :
      SwarmDefinition fl → ℕ → SwarmDefinition fl × Result RebalanceAction → Type 0
  Redistributes before total (after, ok (redistributed new)) =
      Tiles 0 total new
      × (new ≡ take (length new) (map held (active_members after.members)))
      × (length new ≤ active_member_count before)
      × (map who after.members ≡ map who before.members)
  Redistributes before total (after, ok (standby_promoted peer new)) = ⊥
  Redistributes before total (after, ok disbanded) = ⊥
  Redistributes before total (after, err e) = ⊥

  -- With an active member and some capacity, `redistribute_layers` succeeds, whatever the rounding
  -- gives: the new assignments lead from layer 0 to the last layer without gap or overlap, none is
  -- empty, there are no more of them than active members, they are what the first active members of the
  -- new swarm hold, and the members and their roles are as before.
  pub redistribute_covers :
      (swarm : SwarmDefinition fl) (total_layers : ℕ)
      → none_active swarm.members ≡ false
      → 0 < active_capacity swarm.members
      → Redistributes swarm total_layers (redistribute_layers swarm total_layers)
  unfolding redistribute_layers recalculate_capacity active_member_count
  redistribute_covers swarm total_layers some_active some_capacity =
      let total_cap = active_capacity swarm.members in
      let not_zero : (total_cap == 0) ≡ false = ground (arith, some_capacity) in
      let h = spread-held total_cap total_layers swarm.members 0 in
      rw (some_active, not_zero)
        (
          spread-Tiles total_cap total_layers swarm.members 0 (omega arith) some_active,
          h.0,
          h.1,
          spread-roles total_cap total_layers swarm.members 0,
        )

  spread-full :
      (total_cap total : ℕ) (ms : List (SwarmMember fl))
      → spread total_cap total ms total ≡ (ms, [])
  unfolding spread
  spread-full total_cap total [] = refl
  spread-full total_cap total (m ∷ ms) =
      let full : leb total total ≡ true = ground arith in
      elim (Bool-cases (is_standby m.role)) [
        | inl e ↦ rw (e, spread-full total_cap total ms) refl
        | inr e ↦ rw (e, full) refl
      ]

  -- Where stale ranges stay: if the rounded share of the first active member takes all the layers, the
  -- members that follow it keep the ranges they had, which the new assignments do not list.
  pub stale_ranges :
      (total_cap total_layers : ℕ) (m : SwarmMember fl) (rest : List (SwarmMember fl))
      → is_standby m.role ≡ false
      → none_active rest ≡ false
      → 0 < total_layers
      → share_of fl 1 total_cap total_layers m.capacity_bytes false 0 ≡ total_layers
      → let all_layers : Range = record { first = 0; stop = total_layers } in
        spread total_cap total_layers (m ∷ rest) 0
        ≡ (record m { assigned_layers = all_layers } ∷ rest, (m.peer_id, all_layers) ∷ [])
  unfolding spread
  stale_ranges total_cap total_layers m rest act others pos e =
      let more : leb total_layers 0 ≡ false = ground (arith, pos) in
      let z : 0 + total_layers ≡ total_layers = omega arith in
      rw (act, more, others, e, z, spread-full total_cap total_layers rest) refl
