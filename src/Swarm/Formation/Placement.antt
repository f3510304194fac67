-- ===== src/Swarm/Formation/Placement.antt =====
-- Where `form_swarms` puts each peer: crates/hivebear-mesh/src/swarm/formation.rs.
use hive_bear.Prelude.{
  ℕ, zero, suc, ◌+◌, ◌≡◌, refl, ap, ◌∙◌, Option, none, some, List, [], ◌∷◌, ◌++◌, map, arith,
  length, get_elem?, ltb, leb, Bool-cases, inl, inr,
}
use hive_bear.Prelude.Sort.{sort_by, All-sort_by}
use hive_bear.Prelude.Counts.{count, count-append, count-sort_by}
use hive_bear.Float.{Float}
use hive_bear.MeshError.{Result, ok, err}
use hive_bear.Peer.{NodeId, Uuid, DraftCapability, PeerInfo, capacity}
use hive_bear.Scheduler.{total_capacity}
use hive_bear.Swarm.{SwarmDefinition, recalculate_capacity, min_swarm_size}
use hive_bear.Swarm.Formation.Models.{
  ModelSizeClass, FormationConfig, best_model_for_capacity, classify_as_drafter,
  min_swarm_capacity_bytes,
}
use hive_bear.Swarm.Formation.Candidates.{Slot, gather}
use hive_bear.Swarm.Formation.Members.{by_capacity, assign_members}
use hive_bear.Swarm.Formation.{
  FormationResult, new_swarm, too_few_layers, build_swarm, with_model, try_form, form_at, form_from,
  place, classify, open_slot, open_peers, form_swarms,
}
use hive_bear.Swarm.Formation.Seats.{
  Live, Apart, gather-Apart, open_slot-eq, Apart-sort_by, assign_members-count,
}

module _ {fl : Float} where
  -- The identities of the members of all swarms.
  abbrev pub member_ids : List (SwarmDefinition fl) → List NodeId
  member_ids [] = []
  member_ids (s ∷ ss) = map (λ m. m.peer_id) s.members ++ member_ids ss

  -- Peers only move from the open slots into the swarms.
  abbrev Conserves : ℕ → List (Slot fl) → List (SwarmDefinition fl) × List (Slot fl) → Type 0
  Conserves x slots r =
      count x (member_ids r.0) + count x (open_peers r.1) ≡ count x (open_peers slots)

  module _ (x : ℕ) (config : FormationConfig fl) (id now : ℕ) where
    with_model-Conserves :
        (model : Option (ModelSizeClass fl)) (cs : List (ℕ × PeerInfo fl)) (slots : List (Slot fl))
        → Live slots cs
        → Apart cs
        → Conserves x slots (with_model config id now model cs slots)
    unfolding with_model build_swarm new_swarm recalculate_capacity
    with_model-Conserves none cs slots v a = omega arith
    with_model-Conserves (some model) cs slots v a =
        let seats =
          assign_members-count x config.min_layers_per_stage (total_capacity (map (λ c. c.1) cs))
            model.total_layers none (sort_by by_capacity cs) 0 slots
            (All-sort_by (λ c. get_elem? slots c.0 ≡ some (open_slot c.1)) by_capacity cs v)
            (Apart-sort_by by_capacity cs a) in
        let r =
          assign_members config.min_layers_per_stage (total_capacity (map (λ c. c.1) cs))
            model.total_layers none (sort_by by_capacity cs) 0 slots in
        elim (Bool-cases (too_few_layers config model (length cs))) [
          | inl e ↦ rw e (omega arith)
          | inr e ↦ rw e (omega (arith, seats, count-append x (map (λ m. m.peer_id) r.0) []))
        ]

    module _ (models : List (ModelSizeClass fl)) where
      try_form-Conserves :
          (cs : List (ℕ × PeerInfo fl)) (slots : List (Slot fl))
          → Live slots cs
          → Apart cs
          → Conserves x slots (try_form config models id now cs slots)
      unfolding try_form
      try_form-Conserves cs slots v a =
          let combined = total_capacity (map (λ c. c.1) cs) in
          elim (Bool-cases (ltb (length cs) min_swarm_size)) [
            | inl e ↦ rw e (omega arith)
            | inr e ↦ elim (Bool-cases (ltb combined min_swarm_capacity_bytes)) [
              | inl f ↦ rw (e, f) (omega arith)
              | inr f ↦
                  rw (e, f)
                    (with_model-Conserves (best_model_for_capacity combined models) cs slots v a)
            ]
          ]

      form_at-Conserves :
          (i : ℕ) (o : Option (Slot fl)) (slots : List (Slot fl))
          → get_elem? slots i ≡ o
          → Conserves x slots (form_at config models id now i o slots)
      unfolding form_at
      form_at-Conserves i none slots h = omega arith
      form_at-Conserves i (some s) slots h = elim (Bool-cases s.assigned) [
        | inl e ↦ rw e (omega arith)
        | inr e ↦
            let found =
              gather-Apart config i slots slots 0 ((i, s.peer) ∷ [])
                (λ k. ap (get_elem? slots) (omega arith)) (inr refl, tt)
                (h ∙ ap some (open_slot-eq s e), tt) (tt, tt) in
            rw e (
              try_form-Conserves (gather config i slots 0 ((i, s.peer) ∷ [])) slots found.0 found.1)
      ]

  module _ (x : ℕ) (config : FormationConfig fl) (models : List (ModelSizeClass fl))
      (new_id : ℕ → Uuid) (now : ℕ) where
    count-member_ids :
        (ss ts : List (SwarmDefinition fl))
        → count x (member_ids (ss ++ ts)) ≡ count x (member_ids ss) + count x (member_ids ts)
    count-member_ids [] ts = omega arith
    count-member_ids (s ∷ ss) ts =
        let ids : List NodeId = map (λ m. m.peer_id) s.members in
        omega (
          arith,
          count-append x ids (member_ids (ss ++ ts)),
          count-append x ids (member_ids ss),
          count-member_ids ss ts,
        )

    form_from-Conserves :
        (n i : ℕ) (slots : List (Slot fl))
        → Conserves x slots (form_from config models new_id now n i slots)
    unfolding form_from
    form_from-Conserves zero i slots = omega arith
    form_from-Conserves (suc n) i slots =
        let r = form_at config models (new_id i) now i (get_elem? slots i) slots in
        let later = form_from config models new_id now n (suc i) r.1 in
        omega (
          arith,
          count-member_ids r.0 later.0,
          form_at-Conserves x config (new_id i) now models i (get_elem? slots i) slots refl,
          form_from-Conserves n (suc i) r.1,
        )

    open_peers-open_slot :
        (ps : List (PeerInfo fl))
        → count x (open_peers (map open_slot ps)) ≡ count x (map (λ p. p.node_id) ps)
    unfolding open_peers
    open_peers-open_slot [] = refl
    open_peers-open_slot (p ∷ ps) = ground (arith, open_peers-open_slot ps)

    place-count :
        (p : PeerInfo fl) (o : Option (DraftCapability fl))
        (r : List (PeerInfo fl) × List (NodeId × DraftCapability fl) × List NodeId)
        → let q = place p o r in
          count x (map (λ p. p.node_id) q.0) + count x (map (λ d. d.0) q.1) + count x q.2
          ≡ count x (p.node_id ∷ [])
            + (count x (map (λ p. p.node_id) r.0) + count x (map (λ d. d.0) r.1) + count x r.2)
    unfolding place
    place-count p none r = ground arith
    place-count p (some d) r = ground arith

    classify-count :
        (ps : List (PeerInfo fl))
        → let r = classify config ps in
          count x (map (λ p. p.node_id) r.0) + count x (map (λ d. d.0) r.1) + count x r.2
          ≡ count x (map (λ p. p.node_id) ps)
    unfolding classify
    classify-count [] = omega arith
    classify-count (p ∷ ps) = elim (Bool-cases (leb config.min_peer_capacity_bytes (capacity p))) [
      | inl e ↦ rw e (ground (arith, classify-count ps))
      | inr e ↦ rw e (
          ground (
            arith,
            place-count p (classify_as_drafter p config) (classify config ps),
            classify-count ps,
          ))
    ]

  -- Every peer of a result is placed once.
  abbrev pub Places : ℕ → List (PeerInfo fl) → Result (FormationResult fl) → Type 0
  Places x peers (ok r) =
      count x (member_ids r.swarms) + count x (map (λ d. d.0) r.drafters) + count x r.unplaced
      ≡ count x (map (λ p. p.node_id) peers)
  Places x peers (err e) = ⊥

  -- `form_swarms` succeeds, and it loses no peer and uses none twice: every identity stands among the
  -- members of the swarms, the drafters and the unplaced peers together exactly as often as among the
  -- given peers. This holds for every configuration, every list of models and every rounding.
  pub form_swarms-Places :
      (x : NodeId) (new_id : ℕ → Uuid) (now : ℕ) (peers : List (PeerInfo fl))
      (config : FormationConfig fl) (models : List (ModelSizeClass fl))
      → Places x peers (form_swarms new_id now peers config models)
  unfolding form_swarms
  form_swarms-Places x new_id now [] config models = omega arith
  form_swarms-Places x new_id now (p ∷ ps) config models =
      let r = classify config (p ∷ ps) in
      let sorted = sort_by (λ a b. leb (capacity b) (capacity a)) r.0 in
      let final = form_from config models new_id now (length sorted) 0 (map open_slot sorted) in
      omega (
        arith,
        classify-count x config models new_id now (p ∷ ps),
        form_from-Conserves x config models new_id now (length sorted) 0 (map open_slot sorted),
        open_peers-open_slot x config models new_id now sorted,
        count-sort_by (λ p. p.node_id) (λ a b. leb (capacity b) (capacity a)) x r.0,
        count-append x r.2 (open_peers final.1),
      )
