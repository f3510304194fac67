-- ===== src/Scheduler/Cover.antt =====
-- The assignment loop of the schedulers covers the layers, whatever the floating-point rounding gives.
use mathlib.Core.Path.{subst}
use hive_bear.Prelude.{
  ℕ, suc, ◌+◌, ◌-◌, ◌≤◌, ◌<◌, ◌≡◌, refl, sym, Bool, true, false, List, [], ◌∷◌, arith, length, leb,
  ◌==◌, Bool-cases, inl, inr,
}
use hive_bear.Float.{Float}
use hive_bear.MeshError.{Result, ok, err}
use hive_bear.Peer.{PeerInfo, capacity}
use hive_bear.Scheduler.{
  LayerAssignment, InferencePlan, share_of, is_nil, push_stage, assignment_of, assign_layers,
}

pub share_of-le :
    (fl : Float) (least total_cap total_layers c : ℕ) (last : Bool) (cursor : ℕ)
    → share_of fl least total_cap total_layers c last cursor ≤ total_layers - cursor
unfolding share_of
share_of-le fl least total_cap total_layers c true cursor = omega arith
share_of-le fl least total_cap total_layers c false cursor = omega arith

module _ {fl : Float} where
  -- The ranges follow one another from the first layer to the last, and none is empty.
  abbrev pub Covers : ℕ → ℕ → List (LayerAssignment fl) → Type 0
  Covers from to [] = from ≡ to
  Covers from to (a ∷ rest) =
      (a.layer_range.first ≡ from) × (from < a.layer_range.stop) × Covers a.layer_range.stop to rest

  -- A successful result that satisfies the predicate.
  abbrev pub Succeeds : (InferencePlan fl → Type 0) → Result (InferencePlan fl) → Type 0
  Succeeds P (ok p) = P p
  Succeeds P (err e) = ⊥

  -- The result of the loop from a cursor, with the given number of peers.
  abbrev Follows : ℕ → ℕ → ℕ → List (LayerAssignment fl) × ℕ → Type 0
  Follows total_layers cursor n r = Covers cursor r.1 r.0 × (r.1 ≤ total_layers) × (length r.0 ≤ n)

  push_stage-Follows :
      (total_layers cursor share n : ℕ) (a : LayerAssignment fl) (r : List (LayerAssignment fl) × ℕ)
      → cursor ≤ total_layers
      → a.layer_range.first ≡ cursor
      → a.layer_range.stop ≡ cursor + share
      → Follows total_layers (cursor + share) n r
      → Follows total_layers cursor (suc n) (push_stage total_layers cursor share a r)
  unfolding push_stage
  push_stage-Follows total_layers cursor share n a r h e f v =
      elim (Bool-cases (leb total_layers cursor)) [
        | inl over ↦ rw over (refl, h, omega arith)
        | inr more ↦ elim (Bool-cases (share == 0)) [
          | inl none_left ↦
              let z : cursor + share ≡ cursor = ground (arith, none_left) in
              rw (more, none_left) (subst (λ x. Covers x r.1 r.0) z v.0, v.1, omega (arith, v.2))
          | inr taken ↦
              rw (more, taken)
                (
                  (e, ground (arith, taken, f), subst (λ x. Covers x r.1 r.0) (sym f) v.0),
                  v.1,
                  omega (arith, v.2),
                )
        ]
      ]

  push_stage-cursor :
      (total_layers cursor share : ℕ) (a : LayerAssignment fl) (r : List (LayerAssignment fl) × ℕ)
      → cursor ≤ total_layers
      → r.1 ≡ total_layers
      → (push_stage total_layers cursor share a r).1 ≡ total_layers
  unfolding push_stage
  push_stage-cursor total_layers cursor share a r h e = ground arith

  module _ (least total_cap total_layers bytes_per_layer : ℕ) where
    -- From any cursor the ranges lead without a gap to where the loop ends, which is within the
    -- layers, and there are no more of them than peers.
    pub assign_layers-Follows :
        (ps : List (PeerInfo fl)) (cursor : ℕ)
        → cursor ≤ total_layers
        → Follows total_layers cursor
            (length ps)
            (assign_layers least total_cap total_layers bytes_per_layer ps cursor)
    unfolding assign_layers
    assign_layers-Follows [] cursor h = (refl, h, omega arith)
    assign_layers-Follows (p ∷ ps) cursor h =
        let share = share_of fl least total_cap total_layers (capacity p) (is_nil ps) cursor in
        let le = share_of-le fl least total_cap total_layers (capacity p) (is_nil ps) cursor in
        push_stage-Follows total_layers cursor share (length ps)
          (assignment_of bytes_per_layer cursor share p)
          (assign_layers least total_cap total_layers bytes_per_layer ps (cursor + share)) h
          (unfold assignment_of in refl) (unfold assignment_of in refl)
          (assign_layers-Follows ps (cursor + share) (omega (arith, le)))

    -- Given a peer, the loop ends with all layers assigned.
    pub assign_layers-cursor :
        (p : PeerInfo fl) (ps : List (PeerInfo fl)) (cursor : ℕ)
        → cursor ≤ total_layers
        → (assign_layers least total_cap total_layers bytes_per_layer (p ∷ ps) cursor).1
          ≡ total_layers
    unfolding assign_layers share_of
    assign_layers-cursor p [] cursor h =
        push_stage-cursor total_layers cursor (total_layers - cursor)
          (assignment_of bytes_per_layer cursor (total_layers - cursor) p)
          ([], cursor + (total_layers - cursor)) h (omega arith)
    assign_layers-cursor p (q ∷ ps) cursor h =
        let share = share_of fl least total_cap total_layers (capacity p) false cursor in
        push_stage-cursor total_layers cursor share (assignment_of bytes_per_layer cursor share p)
          (assign_layers least total_cap total_layers bytes_per_layer (q ∷ ps) (cursor + share)) h
          (assign_layers-cursor q ps (cursor + share)
            (omega (arith, share_of-le fl least total_cap total_layers (capacity p) false cursor)))
