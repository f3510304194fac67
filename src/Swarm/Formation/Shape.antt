-- ===== src/Swarm/Formation/Shape.antt =====
-- What the swarms that `form_swarms` makes look like: crates/hivebear-mesh/src/swarm/formation.rs.
use mathlib.Core.Path.{subst}
use mathlib.Core.List.Memᴰ
use mathlib.Core.List.{Memᴰ}
use hive_bear.Swarm.Formation.Matching.{best_model_for_capacity-Memᴰ}
use hive_bear.Swarm.Formation.Clique.{IsGroup-length, gather-IsGroup}
use hive_bear.Prelude.{
  ℕ, zero, suc, ◌≤◌, ◌<◌, ◌≡◌, refl, sym, Option, none, some, List, [], ◌∷◌, map, arith, length,
  get_elem?, ltb, leb, Bool-cases, Option-cases, inl, inr, All, All-append, max,
}
use hive_bear.Prelude.Sort.{sort_by, length-sort_by}
use hive_bear.Float.{Float}
use hive_bear.MeshError.{Result, ok, err}
use hive_bear.Peer.{Uuid, PeerInfo, capacity}
use hive_bear.Scheduler.{total_capacity}
use hive_bear.Swarm.{
  SwarmStatus, SwarmDefinition, active_capacity, recalculate_capacity, min_swarm_size,
}
use hive_bear.Swarm.Formation.Models.{
  ModelSizeClass, FormationConfig, best_model_for_capacity, min_swarm_capacity_bytes,
}
use hive_bear.Swarm.Formation.Candidates.{Slot, gather}
use hive_bear.Swarm.Formation.Members.{by_capacity, assign_members}
use hive_bear.Swarm.Formation.{
  FormationResult, new_swarm, too_few_layers, build_swarm, with_model, try_form, form_at, form_from,
  classify, open_slot, form_swarms,
}
use hive_bear.Swarm.Formation.Ranges.{
  Tiles, IsLed, assign_members-Tiles, assign_members-IsLed, assign_members-length,
}

module _ {fl : Float} where
  -- A new swarm: it serves one of the models, its ranges are all the layers of that model, its first
  -- member leads and the others work, it has at most as many members as the pipeline may have stages
  -- (or one), its status is `Forming`, and its aggregate capacity is that of its members.
  abbrev pub IsFormed : FormationConfig fl → List (ModelSizeClass fl) → SwarmDefinition fl → Type 0
  IsFormed config models swarm =
      (m : ModelSizeClass fl) × Memᴰ m models
      × (swarm.model_id ≡ m.model_id)
      × Tiles 0 m.total_layers swarm.members
      × IsLed swarm.members
      × (length swarm.members ≤ max 1 config.max_pipeline_depth)
      × (swarm.status ≡ SwarmStatus.forming)
      × (swarm.aggregate_capacity_bytes ≡ active_capacity swarm.members)

  -- A model that has layers.
  abbrev pub HasLayers : ModelSizeClass fl → Type 0
  HasLayers m = 0 < m.total_layers

  All-Memᴰ :
      (P : ModelSizeClass fl → Type 0) (m : ModelSizeClass fl) (ms : List (ModelSizeClass fl))
      → Memᴰ m ms
      → All P ms
      → P m
  All-Memᴰ P m [] h a = absurd (Memᴰ.not-nil h)
  All-Memᴰ P m (n ∷ ms) (Memᴰ.head e) a = subst P (sym e) a.0
  All-Memᴰ P m (n ∷ ms) (Memᴰ.tail h) a = All-Memᴰ P m ms h a.1

  build_swarm-IsFormed :
      (config : FormationConfig fl) (models : List (ModelSizeClass fl)) (id now : ℕ)
      (m : ModelSizeClass fl) (cs : List (ℕ × PeerInfo fl)) (slots : List (Slot fl))
      → 1 ≤ config.min_layers_per_stage
      → 0 < m.total_layers
      → Memᴰ m models
      → 1 ≤ length cs
      → length cs ≤ max 1 config.max_pipeline_depth
      → IsFormed config models (build_swarm config id now m cs slots).0
  unfolding build_swarm new_swarm recalculate_capacity
  build_swarm-IsFormed config models id now m cs slots h l mem pos depth =
      go (sort_by by_capacity cs) (length-sort_by by_capacity cs)
    where
      least : ℕ
      least = config.min_layers_per_stage

      total_cap : ℕ
      total_cap = total_capacity (map (λ c. c.1) cs)

      go :
          (ds : List (ℕ × PeerInfo fl))
          → length ds ≡ length cs
          → IsFormed config models (
              recalculate_capacity (
                new_swarm id now m.model_id
                  (assign_members least total_cap m.total_layers none ds 0 slots).0))
      go [] e = absurd (omega (arith, e, pos))
      go (d ∷ ds) e = (
        m,
        mem,
        refl,
        assign_members-Tiles least total_cap m.total_layers none d ds 0 slots (omega arith),
        assign_members-IsLed least total_cap m.total_layers d ds slots h l,
        omega (
          arith,
          assign_members-length least total_cap m.total_layers none (d ∷ ds) 0 slots,
          e,
          depth,
        ),
        refl,
        refl,
      )

  module _ (config : FormationConfig fl) (models : List (ModelSizeClass fl))
      (least : 1 ≤ config.min_layers_per_stage) (layers : All HasLayers models) where
    try_form-IsFormed :
        (id now : ℕ) (cs : List (ℕ × PeerInfo fl)) (slots : List (Slot fl))
        → length cs ≤ max 1 config.max_pipeline_depth
        → All (IsFormed config models) (try_form config models id now cs slots).0
    unfolding try_form with_model
    try_form-IsFormed id now cs slots depth =
        let combined = total_capacity (map (λ c. c.1) cs) in
        elim (Bool-cases (ltb (length cs) min_swarm_size)) [
          | inl e ↦ rw e tt
          | inr e ↦ elim (Bool-cases (ltb combined min_swarm_capacity_bytes)) [
            | inl f ↦ rw (e, f) tt
            | inr f ↦ elim (Option-cases (best_model_for_capacity combined models)) [
              | inl g ↦ rw (e, f, g) tt
              | inr (m, g) ↦ elim (Bool-cases (too_few_layers config m (length cs))) [
                | inl few ↦ rw (e, f, g, few) tt
                | inr enough ↦
                    let mem = best_model_for_capacity-Memᴰ combined models m g in
                    rw (e, f, g, enough)
                      (
                        build_swarm-IsFormed config models id now m cs slots least
                            (All-Memᴰ HasLayers m models mem layers) mem (ground (arith, e)) depth,
                        tt,
                      )
              ]
            ]
          ]
        ]

    form_at-IsFormed :
        (id now i : ℕ) (o : Option (Slot fl)) (slots : List (Slot fl))
        → All (IsFormed config models) (form_at config models id now i o slots).0
    unfolding form_at
    form_at-IsFormed id now i none slots = tt
    form_at-IsFormed id now i (some s) slots = elim (Bool-cases s.assigned) [
      | inl e ↦ rw e tt
      | inr e ↦
          let found = gather config i slots 0 ((i, s.peer) ∷ []) in
          rw e (
            try_form-IsFormed id now found slots (
              IsGroup-length config (i, s.peer) found
                (gather-IsGroup config i (i, s.peer) slots 0)))
    ]

    form_from-IsFormed :
        (new_id : ℕ → Uuid) (now n i : ℕ) (slots : List (Slot fl))
        → All (IsFormed config models) (form_from config models new_id now n i slots).0
    unfolding form_from
    form_from-IsFormed new_id now zero i slots = tt
    form_from-IsFormed new_id now (suc n) i slots =
        let r = form_at config models (new_id i) now i (get_elem? slots i) slots in
        All-append (IsFormed config models) r.0 (form_from config models new_id now n (suc i) r.1).0
          (form_at-IsFormed (new_id i) now i (get_elem? slots i) slots)
          (form_from-IsFormed new_id now n (suc i) r.1)

  -- The swarms of a result satisfy the predicate.
  abbrev pub AllFormed : (SwarmDefinition fl → Type 0) → Result (FormationResult fl) → Type 0
  AllFormed P (ok r) = All P r.swarms
  AllFormed P (err e) = ⊥

  -- If a stage has at least one layer and every model has layers, then each swarm that `form_swarms`
  -- makes serves one of the models, its ranges are all the layers of that model without gap or overlap
  -- and none is empty, its first member is the leader and all others are workers, it has at most as
  -- many members as the pipeline may have stages (or one), its status is `Forming`, and its aggregate
  -- capacity is the sum of its members', on `u64`.
  pub form_swarms-IsFormed :
      (new_id : ℕ → Uuid) (now : ℕ) (peers : List (PeerInfo fl)) (config : FormationConfig fl)
      (models : List (ModelSizeClass fl))
      → 1 ≤ config.min_layers_per_stage
      → All HasLayers models
      → AllFormed (IsFormed config models) (form_swarms new_id now peers config models)
  unfolding form_swarms
  form_swarms-IsFormed new_id now [] config models least layers = tt
  form_swarms-IsFormed new_id now (p ∷ ps) config models least layers =
      let sorted = sort_by (λ a b. leb (capacity b) (capacity a)) (classify config (p ∷ ps)).0 in
      form_from-IsFormed config models least layers new_id now (length sorted) 0
        (map open_slot sorted)
