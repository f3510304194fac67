-- ===== src/Swarm/Formation/Ranges.antt =====
-- The layers and the roles of a new swarm's members: crates/hivebear-mesh/src/swarm/formation.rs.
use mathlib.Core.Path.{subst}
use hive_bear.Prelude.{
  ℕ, ◌+◌, ◌-◌, ◌≤◌, ◌<◌, ◌≡◌, refl, Bool, true, false, Option, none, some, List, [], ◌∷◌, arith,
  length, ◌==◌, Bool-cases, inl, inr, All,
}
use hive_bear.Float.{Float}
use hive_bear.Peer.{PeerInfo, capacity}
use hive_bear.Scheduler.{share_of}
use hive_bear.Scheduler.Cover.{share_of-le}
use hive_bear.Swarm.{SwarmRole, SwarmMember}
use hive_bear.Swarm.Formation.Candidates.{Slot}
use hive_bear.Swarm.Formation.Members.{
  mark, none_left, leader_for, role_after, member_of, assign_members,
}

share_of-pos :
    (fl : Float) (least total_cap total c : ℕ) (last : Bool) (cursor : ℕ)
    → 1 ≤ least
    → cursor < total
    → 0 < share_of fl least total_cap total c last cursor
unfolding share_of
share_of-pos fl least total_cap total c true cursor h l = omega arith
share_of-pos fl least total_cap total c false cursor h l = omega arith

share_of-last :
    (fl : Float) (least total_cap total c cursor : ℕ)
    → share_of fl least total_cap total c true cursor ≡ total - cursor
unfolding share_of
share_of-last fl least total_cap total c cursor = refl

module _ {fl : Float} where
  -- The ranges of the members lead from one layer to another without gap or overlap, none empty.
  abbrev pub Tiles : ℕ → ℕ → List (SwarmMember fl) → Type 0
  Tiles from to [] = from ≡ to
  Tiles from to (m ∷ ms) =
      (m.assigned_layers.first ≡ from)
      × (from < m.assigned_layers.stop)
      × Tiles m.assigned_layers.stop to ms

  -- The first member leads, all others are workers.
  abbrev pub IsLed : List (SwarmMember fl) → Type 0
  IsLed [] = ⊥
  IsLed (m ∷ ms) = (m.role ≡ SwarmRole.leader) × All (λ n. n.role ≡ SwarmRole.worker) ms

  module _ (least total_cap total : ℕ) where
    pub assign_members-Tiles :
        (leader : Option (ℕ × PeerInfo fl)) (c : ℕ × PeerInfo fl) (cs : List (ℕ × PeerInfo fl))
        (cursor : ℕ) (slots : List (Slot fl))
        → cursor ≤ total
        → Tiles cursor total (assign_members least total_cap total leader (c ∷ cs) cursor slots).0
    unfolding assign_members member_of
    assign_members-Tiles leader c [] cursor slots h =
        let share = share_of fl least total_cap total (capacity c.1) true cursor in
        let e = share_of-last fl least total_cap total (capacity c.1) cursor in
        elim (Bool-cases (share == 0)) [
          | inl z ↦ rw z (ground (arith, z, e, h))
          | inr p ↦ rw p (refl, ground (arith, p), omega (arith, e, h))
        ]
    assign_members-Tiles leader c (d ∷ ds) cursor slots h =
        let share = share_of fl least total_cap total (capacity c.1) false cursor in
        let le = share_of-le fl least total_cap total (capacity c.1) false cursor in
        let bound : cursor + share ≤ total = omega (arith, le, h) in
        elim (Bool-cases (share == 0)) [
          | inl z ↦
              let same : cursor + share ≡ cursor = ground (arith, z) in
              rw z (
                subst
                  (λ from.
                    Tiles from total
                      (assign_members least total_cap total (leader_for leader c) (d ∷ ds)
                        (cursor + share) slots).0)
                  same
                  (assign_members-Tiles (leader_for leader c) d ds (cursor + share) slots bound))
          | inr p ↦ rw p (
            refl,
            ground (arith, p),
            assign_members-Tiles (leader_for leader c) d ds (cursor + share) (mark c.0 slots) bound,
          )
        ]

    assign_members-workers :
        (leader : ℕ × PeerInfo fl) (cs : List (ℕ × PeerInfo fl)) (cursor : ℕ)
        (slots : List (Slot fl))
        → All
            (λ n. n.role ≡ SwarmRole.worker)
            (assign_members least total_cap total (some leader) cs cursor slots).0
    unfolding assign_members member_of role_after leader_for
    assign_members-workers leader [] cursor slots = tt
    assign_members-workers leader (c ∷ cs) cursor slots =
        let share = share_of fl least total_cap total (capacity c.1) (none_left cs) cursor in
        elim (Bool-cases (share == 0)) [
          | inl e ↦ rw e (assign_members-workers leader cs (cursor + share) slots)
          | inr e ↦ rw e (refl, assign_members-workers leader cs (cursor + share) (mark c.0 slots))
        ]

    pub assign_members-IsLed :
        (c : ℕ × PeerInfo fl) (cs : List (ℕ × PeerInfo fl)) (slots : List (Slot fl))
        → 1 ≤ least
        → 0 < total
        → IsLed (assign_members least total_cap total none (c ∷ cs) 0 slots).0
    unfolding assign_members member_of role_after leader_for
    assign_members-IsLed c cs slots h l =
        let share = share_of fl least total_cap total (capacity c.1) (none_left cs) 0 in
        let e : (share == 0) ≡ false =
          ground
            (arith, share_of-pos fl least total_cap total (capacity c.1) (none_left cs) 0 h l) in
        rw e (refl, assign_members-workers c cs (0 + share) (mark c.0 slots))

    pub assign_members-length :
        (leader : Option (ℕ × PeerInfo fl)) (cs : List (ℕ × PeerInfo fl)) (cursor : ℕ)
        (slots : List (Slot fl))
        → length (assign_members least total_cap total leader cs cursor slots).0 ≤ length cs
    unfolding assign_members
    assign_members-length leader [] cursor slots = omega arith
    assign_members-length leader (c ∷ cs) cursor slots =
        let share = share_of fl least total_cap total (capacity c.1) (none_left cs) cursor in
        elim (Bool-cases (share == 0)) [
          | inl e ↦
              rw e (
                omega
                  (arith, assign_members-length (leader_for leader c) cs (cursor + share) slots))
          | inr e ↦ rw e (
              omega (
                arith,
                assign_members-length (leader_for leader c) cs (cursor + share) (mark c.0 slots),
              ))
        ]
