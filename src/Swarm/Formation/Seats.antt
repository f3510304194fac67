-- ===== src/Swarm/Formation/Seats.antt =====
-- Candidates and the slots that they stand in: crates/hivebear-mesh/src/swarm/formation.rs.
use mathlib.Core.Path.{subst}
use hive_bear.Prelude.{
  ℕ, zero, suc, ◌+◌, ◌<◌, ◌≡◌, ◌≢◌, ◌⊎◌, refl, sym, ap, ◌∙◌, Bool, false, ◌&&◌, ◌||◌, Option, none,
  some, List, [], ◌∷◌, ◌++◌, map, arith, length, get_elem?, ltb, ◌==◌, Bool-cases, inl, inr, All,
  All-append,
}
use hive_bear.Prelude.Sort.{insert_by, sort_by, All-sort_by, All-insert_by}
use hive_bear.Prelude.Counts.{count}
use hive_bear.Float.{Float}
use hive_bear.Peer.{PeerInfo, capacity}
use hive_bear.Scheduler.{share_of}
use hive_bear.Swarm.Formation.Models.{FormationConfig}
use hive_bear.Swarm.Formation.Candidates.{Slot, consider, gather, all_close}
use hive_bear.Swarm.Formation.Members.{mark, none_left, leader_for, member_of, assign_members}
use hive_bear.Swarm.Formation.{open_slot, open_peers}

module _ {fl : Float} where
  -- Each candidate stands in an open slot of its index.
  abbrev pub Live : List (Slot fl) → List (ℕ × PeerInfo fl) → Type 0
  Live slots = All (λ c. get_elem? slots c.0 ≡ some (open_slot c.1))

  -- No two candidates have the same index.
  abbrev pub Apart : List (ℕ × PeerInfo fl) → Type 0
  Apart [] = Unit
  Apart (c ∷ cs) = All (λ d. c.0 ≢ d.0) cs × Apart cs

  get_elem?-mark_ne :
      (i j : ℕ) (slots : List (Slot fl)) → i ≢ j → get_elem? (mark i slots) j ≡ get_elem? slots j
  unfolding mark
  get_elem?-mark_ne i j [] h = refl
  get_elem?-mark_ne zero zero (s ∷ slots) h = absurd (h refl)
  get_elem?-mark_ne zero (suc j) (s ∷ slots) h = refl
  get_elem?-mark_ne (suc i) zero (s ∷ slots) h = refl
  get_elem?-mark_ne (suc i) (suc j) (s ∷ slots) h = get_elem?-mark_ne i j slots (λ e. h (ap suc e))

  Live-mark :
      (i : ℕ) (slots : List (Slot fl)) (cs : List (ℕ × PeerInfo fl))
      → All (λ d. i ≢ d.0) cs
      → Live slots cs
      → Live (mark i slots) cs
  Live-mark i slots [] h v = tt
  Live-mark i slots (c ∷ cs) h v =
      (get_elem?-mark_ne i c.0 slots h.0 ∙ v.0, Live-mark i slots cs h.1 v.1)

  -- Marking an open slot takes its peer from the open ones.
  count-mark :
      (x i : ℕ) (p : PeerInfo fl) (slots : List (Slot fl))
      → get_elem? slots i ≡ some (open_slot p)
      → count x (open_peers slots) ≡ count x (p.node_id ∷ open_peers (mark i slots))
  unfolding mark open_peers
  count-mark x i p [] h = cc
  count-mark x zero p (s ∷ slots) h =
      let e : s ≡ open_slot p = ap (λ (o : Option (Slot fl)). elim o [ none ↦ s | some t ↦ t ]) h in
      subst
        (λ t.
          count x (open_peers (t ∷ slots)) ≡ count x (p.node_id ∷ open_peers (mark 0 (t ∷ slots))))
        (sym e) refl
  count-mark x (suc i) p (s ∷ slots) h = elim (Bool-cases s.assigned) [
    | inl e ↦ rw e (count-mark x i p slots h)
    | inr e ↦ rw e (ground (arith, count-mark x i p slots h))
  ]

  -- The members and the open slots after the loop are the open slots before it.
  pub assign_members-count :
      (x least total_cap total : ℕ) (leader : Option (ℕ × PeerInfo fl))
      (cs : List (ℕ × PeerInfo fl)) (cursor : ℕ) (slots : List (Slot fl))
      → Live slots cs
      → Apart cs
      → let r = assign_members least total_cap total leader cs cursor slots in
        count x (map (λ m. m.peer_id) r.0) + count x (open_peers r.1) ≡ count x (open_peers slots)
  unfolding assign_members member_of
  assign_members-count x least total_cap total leader [] cursor slots v a = omega arith
  assign_members-count x least total_cap total leader (c ∷ cs) cursor slots v a =
      let share = share_of fl least total_cap total (capacity c.1) (none_left cs) cursor in
      elim (Bool-cases (share == 0)) [
        | inl e ↦ rw e (
            assign_members-count x least total_cap total (leader_for leader c) cs (cursor + share)
              slots v.1 a.1)
        | inr e ↦ rw e (
            ground (
              arith,
              count-mark x c.0 c.1 slots v.0,
              assign_members-count x least total_cap total (leader_for leader c) cs (cursor + share)
                  (mark c.0 slots) (Live-mark c.0 slots cs a.0 v.1) a.1,
            ))
      ]

  Apart-insert_by :
      (le : ℕ × PeerInfo fl → ℕ × PeerInfo fl → Bool) (c : ℕ × PeerInfo fl)
      (cs : List (ℕ × PeerInfo fl))
      → All (λ d. c.0 ≢ d.0) cs
      → Apart cs
      → Apart (insert_by le c cs)
  unfolding insert_by
  Apart-insert_by le c [] h a = (tt, tt)
  Apart-insert_by le c (d ∷ cs) h a = elim (Bool-cases (le c d)) [
    | inl e ↦ rw e (h, a)
    | inr e ↦ rw e (
      All-insert_by (λ b. d.0 ≢ b.0) le c cs (λ e. h.0 (sym e)) a.0,
      Apart-insert_by le c cs h.1 a.1,
    )
  ]

  pub Apart-sort_by :
      (le : ℕ × PeerInfo fl → ℕ × PeerInfo fl → Bool) (cs : List (ℕ × PeerInfo fl))
      → Apart cs
      → Apart (sort_by le cs)
  unfolding sort_by
  Apart-sort_by le [] a = tt
  Apart-sort_by le (c ∷ cs) a =
      Apart-insert_by le c (sort_by le cs) (All-sort_by (λ d. c.0 ≢ d.0) le cs a.0)
        (Apart-sort_by le cs a.1)

  Apart-snoc :
      (c : ℕ × PeerInfo fl) (cs : List (ℕ × PeerInfo fl))
      → All (λ d. d.0 ≢ c.0) cs
      → Apart cs
      → Apart (cs ++ c ∷ [])
  Apart-snoc c [] h a = (tt, tt)
  Apart-snoc c (d ∷ cs) h a =
      (All-append (λ b. d.0 ≢ b.0) cs (c ∷ []) a.0 (h.0, tt), Apart-snoc c cs h.1 a.1)

  below-suc :
      (i j : ℕ) (cands : List (ℕ × PeerInfo fl))
      → All (λ c. (c.0 < j) ⊎ (c.0 ≡ i)) cands
      → All (λ c. (c.0 < suc j) ⊎ (c.0 ≡ i)) cands
  below-suc i j [] h = tt
  below-suc i j (c ∷ cs) (inl l, h) = (inl (omega (arith, l)), below-suc i j cs h)
  below-suc i j (c ∷ cs) (inr e, h) = (inr e, below-suc i j cs h)

  below-ne :
      (i j : ℕ) (cands : List (ℕ × PeerInfo fl))
      → i ≢ j
      → All (λ c. (c.0 < j) ⊎ (c.0 ≡ i)) cands
      → All (λ c. c.0 ≢ j) cands
  below-ne i j [] n h = tt
  below-ne i j (c ∷ cs) n (inl l, h) = (λ e. omega (arith, l, e), below-ne i j cs n h)
  below-ne i j (c ∷ cs) n (inr e, h) = (λ f. n (sym e ∙ f), below-ne i j cs n h)

  pub open_slot-eq : (s : Slot fl) → s.assigned ≡ false → s ≡ open_slot s.peer
  open_slot-eq s e = ap (λ (b : Bool). record { peer = s.peer; assigned = b }) e

  consider-Apart :
      (config : FormationConfig fl) (i : ℕ) (full : List (Slot fl)) (s : Slot fl) (j : ℕ)
      (cands : List (ℕ × PeerInfo fl))
      → get_elem? full j ≡ some s
      → All (λ c. (c.0 < j) ⊎ (c.0 ≡ i)) cands
      → Live full cands
      → Apart cands
      → let next = consider config i s j cands in
        Live full next × Apart next × All (λ c. (c.0 < suc j) ⊎ (c.0 ≡ i)) next
  unfolding consider
  consider-Apart config i full s j cands here below v a = elim (Bool-cases (i == j || s.assigned)) [
    | inl skip ↦ rw skip (v, a, below-suc i j cands below)
    | inr free ↦
        elim (Bool-cases
          (all_close config (j, s.peer) cands && ltb (length cands) config.max_pipeline_depth)) [
            | inr far ↦ rw (free, far) (v, a, below-suc i j cands below)
            | inl near ↦
                let e : s.assigned ≡ false = ground (arith, free) in
                let n : i ≢ j = λ f. ground (arith, free, f) in
                rw (free, near)
                  (
                    All-append (λ c. get_elem? full c.0 ≡ some (open_slot c.1)) cands
                        ((j, s.peer) ∷ []) v (here ∙ ap some (open_slot-eq s e), tt),
                    Apart-snoc (j, s.peer) cands (below-ne i j cands n below) a,
                    All-append (λ c. (c.0 < suc j) ⊎ (c.0 ≡ i)) cands ((j, s.peer) ∷ [])
                        (below-suc i j cands below) (inl (omega arith), tt),
                  )
          ]
  ]

  -- The slots from an index on stand in the whole list.
  pub gather-Apart :
      (config : FormationConfig fl) (i : ℕ) (full slots : List (Slot fl)) (j : ℕ)
      (cands : List (ℕ × PeerInfo fl))
      → ((k : ℕ) → get_elem? slots k ≡ get_elem? full (j + k))
      → All (λ c. (c.0 < j) ⊎ (c.0 ≡ i)) cands
      → Live full cands
      → Apart cands
      → Live full (gather config i slots j cands) × Apart (gather config i slots j cands)
  unfolding gather
  gather-Apart config i full [] j cands at below v a = (v, a)
  gather-Apart config i full (s ∷ slots) j cands at below v a =
      let here : get_elem? full j ≡ some s = sym (at 0 ∙ ap (get_elem? full) (omega arith)) in
      let next = consider-Apart config i full s j cands here below v a in
      gather-Apart config i full slots (suc j) (consider config i s j cands)
        (λ k. at (suc k) ∙ ap (get_elem? full) (omega arith)) next.2 next.0 next.1
