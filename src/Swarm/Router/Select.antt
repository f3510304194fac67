-- ===== src/Swarm/Router/Select.antt =====
-- Which swarm `select_swarm` answers: crates/hivebear-mesh/src/swarm/router.rs.
use hive_bear.Prelude.{
  ◌≡◌, refl, true, false, ◌⊎◌, Option, none, some, List, [], ◌∷◌, arith, if◌then◌else◌, Bool-cases,
  inl, inr, All, ℕ_discrete,
}
use hive_bear.Prelude.Map.{lookup, lookup-remove_self}
use hive_bear.Prelude.Text.{Text, text_dec, codes}
use hive_bear.Float.{Float}
use hive_bear.MeshError.{MeshError, Result, ok, err}
use hive_bear.Peer.{NodeId}
use hive_bear.Swarm.{SwarmDefinition}
use hive_bear.Swarm.Router.{
  SwarmRouter, or_empty, is_contributing, admits, score, better, best_swarm, or_unavailable,
  select_swarm, set_contributing,
}

module _ {fl : Float} where
  abbrev Among : SwarmDefinition fl → List (SwarmDefinition fl) → Type 0
  Among s [] = ⊥
  Among s (x ∷ xs) = (s ≡ x) ⊎ Among s xs

  -- The best swarm of those that satisfy a predicate: none if none is admitted, else one of them that
  -- is admitted, with its score, that `R` relates every admitted one's score to.
  abbrev Fine :
      SwarmRouter fl
      → (fl.F64 → fl.F64 → Type 0)
      → (SwarmDefinition fl → Type 0)
      → Option (SwarmDefinition fl × fl.F64)
      → Type 0
  Fine r R P none = (x : SwarmDefinition fl) → P x → admits r x ≡ false
  Fine r R P (some c) =
      P c.0
      × (admits r c.0 ≡ true)
      × (c.1 ≡ score r c.0)
      × ((x : SwarmDefinition fl) → P x → admits r x ≡ true → R (score r x) c.1)

  -- What an answer of `select_swarm` says of the swarms of the model.
  abbrev pub Chosen :
      SwarmRouter fl
      → (fl.F64 → fl.F64 → Type 0)
      → Text
      → List (SwarmDefinition fl)
      → Result (SwarmDefinition fl)
      → Type 0
  Chosen r R model_id swarms (ok s) =
      Among s swarms
      × (admits r s ≡ true)
      × All (λ x. (admits r x ≡ false) ⊎ R (score r x) (score r s)) swarms
  Chosen r R model_id swarms (err e) =
      (e ≡ MeshError.no_peers_available model_id) × All (λ x. admits r x ≡ false) swarms

  All-Among :
      (Q : SwarmDefinition fl → Type 0) (xs : List (SwarmDefinition fl))
      → ((x : SwarmDefinition fl) → Among x xs → Q x)
      → All Q xs
  All-Among Q [] h = tt
  All-Among Q (x ∷ xs) h = (h x (inl refl), All-Among Q xs (λ y a. h y (inr a)))

  module _ (r : SwarmRouter fl) (R : fl.F64 → fl.F64 → Type 0)
      (below : (a b : fl.F64) → fl.less_eq a b ≡ true → R a b)
      (above : (x y : SwarmDefinition fl)
        → fl.less_eq (score r x) (score r y) ≡ false
        → R (score r y) (score r x))
      (itself : (x : SwarmDefinition fl) → R (score r x) (score r x))
      (transitive : (a b c : fl.F64) → R a b → R b c → R a c) where
    Fine-passed :
        (P : SwarmDefinition fl → Type 0) (x : SwarmDefinition fl)
        (best : Option (SwarmDefinition fl × fl.F64))
        → admits r x ≡ false
        → Fine r R P best
        → Fine r R (λ y. P y ⊎ (y ≡ x)) best
    Fine-passed P x none e f = λ y s. elim s [ inl p ↦ f y p | inr q ↦ rw q e ]
    Fine-passed P x (some c) e f = (
      inl f.0,
      f.1,
      f.2,
      λ y s t. elim s [ inl p ↦ f.3 y p t | inr q ↦ absurd (ground (arith, q, e, t)) ],
    )

    Fine-better :
        (P : SwarmDefinition fl → Type 0) (x : SwarmDefinition fl)
        (best : Option (SwarmDefinition fl × fl.F64))
        → admits r x ≡ true
        → Fine r R P best
        → Fine r R (λ y. P y ⊎ (y ≡ x)) (better x (score r x) best)
    unfolding better
    Fine-better P x none e f = (
      inr refl,
      e,
      refl,
      λ y s t. elim s [ inl p ↦ absurd (ground (arith, f y p, t)) | inr q ↦ rw q (itself x) ],
    )
    Fine-better P x (some c) e f = elim (Bool-cases (fl.less_eq (score r x) c.1)) [
      | inl keeps ↦ rw keeps (
        inl f.0,
        f.1,
        f.2,
        λ y s t. elim s [ inl p ↦ f.3 y p t | inr q ↦ rw q (below (score r x) c.1 keeps) ],
      )
      | inr less ↦
          let up : R c.1 (score r x) = rw f.2 (above x c.0 (rw f.2 at less)) in
          rw less (
            inr refl,
            e,
            refl,
            λ y s t. elim s [
              | inl p ↦ transitive (score r y) c.1 (score r x) (f.3 y p t) up
              | inr q ↦ rw q (itself x)
            ],
          )
    ]

    Fine-onto :
        (P Q : SwarmDefinition fl → Type 0) (best : Option (SwarmDefinition fl × fl.F64))
        → ((y : SwarmDefinition fl) → P y → Q y)
        → ((y : SwarmDefinition fl) → Q y → P y)
        → Fine r R P best
        → Fine r R Q best
    Fine-onto P Q none to from f = λ y q. f y (from y q)
    Fine-onto P Q (some c) to from f = (to c.0 f.0, f.1, f.2, λ y q t. f.3 y (from y q) t)

    best_swarm-Fine :
        (P : SwarmDefinition fl → Type 0) (xs : List (SwarmDefinition fl))
        (best : Option (SwarmDefinition fl × fl.F64))
        → Fine r R P best
        → Fine r R (λ y. P y ⊎ Among y xs) (best_swarm r xs best)
    unfolding best_swarm
    best_swarm-Fine P [] best f =
        Fine-onto P (λ y. P y ⊎ ⊥) best (λ y p. inl p)
          (λ y s. elim s [ inl p ↦ p | inr n ↦ absurd n ]) f
    best_swarm-Fine P (x ∷ xs) best f =
        Fine-onto (λ y. (P y ⊎ (y ≡ x)) ⊎ Among y xs) (λ y. P y ⊎ ((y ≡ x) ⊎ Among y xs))
          (best_swarm r xs (if admits r x then better x (score r x) best else best))
          (λ y s. elim s [
            | inl t ↦ elim t [ inl p ↦ inl p | inr q ↦ inr (inl q) ]
            | inr a ↦ inr (inr a)
          ])
          (λ y s. elim s [
            | inl p ↦ inl (inl p)
            | inr t ↦ elim t [ inl q ↦ inl (inr q) | inr a ↦ inr a ]
          ])
          (best_swarm-Fine (λ y. P y ⊎ (y ≡ x)) xs
            (if admits r x then better x (score r x) best else best) step)
      where
        step :
            Fine r R (λ y. P y ⊎ (y ≡ x)) (if admits r x then better x (score r x) best else best)
        step = elim (Bool-cases (admits r x)) [
          | inl e ↦ rw e (Fine-better P x best e f)
          | inr e ↦ rw e (Fine-passed P x best e f)
        ]

    or_unavailable-Chosen :
        (model_id : Text) (swarms : List (SwarmDefinition fl))
        (best : Option (SwarmDefinition fl × fl.F64))
        → Fine r R (λ y. ⊥ ⊎ Among y swarms) best
        → Chosen r R model_id swarms (or_unavailable model_id best)
    unfolding or_unavailable
    or_unavailable-Chosen model_id swarms none f =
        (refl, All-Among (λ x. admits r x ≡ false) swarms (λ x a. f x (inr a)))
    or_unavailable-Chosen model_id swarms (some c) f = (
      elim f.0 [ inl n ↦ absurd n | inr a ↦ a ],
      f.1,
      All-Among (λ x. (admits r x ≡ false) ⊎ R (score r x) (score r c.0)) swarms
          (λ x a. elim (Bool-cases (admits r x)) [
            | inl t ↦ inr (rw (← f.2) (f.3 x (inr a) t))
            | inr n ↦ inl n
          ]),
    )

    select_swarm-Chosen :
        (model_id : Text) (requester : NodeId)
        → is_contributing requester r ≡ true
        → Chosen r R model_id
            (or_empty (lookup text_dec model_id r.swarms))
            (select_swarm model_id requester r)
    unfolding select_swarm
    select_swarm-Chosen model_id requester h =
        let swarms = or_empty (lookup text_dec model_id r.swarms) in
        rw h (
          or_unavailable-Chosen model_id swarms (best_swarm r swarms none)
            (best_swarm-Fine (λ y. ⊥) swarms none (λ y n. absurd n)))

  -- For a contributing peer, `select_swarm` answers a swarm registered under the model that is ready or
  -- busy and below the limit of requests; it answers `NoPeersAvailable` only if no swarm of the model
  -- is such.
  pub select_swarm_admitted :
      (r : SwarmRouter fl) (model_id : Text) (requester : NodeId)
      → is_contributing requester r ≡ true
      → Chosen r
          (λ a b. Unit)
          model_id
          (or_empty (lookup text_dec model_id r.swarms))
          (select_swarm model_id requester r)
  select_swarm_admitted r =
      select_swarm-Chosen r (λ a b. Unit) (λ a b h. tt) (λ x y h. tt) (λ x. tt) (λ a b c p q. tt)

  -- If the scores are numbers, that is any two compare, the swarm that a contributing peer is answered
  -- has a score at least that of every swarm of the model that could take the request.
  pub select_swarm_best :
      (r : SwarmRouter fl) (model_id : Text) (requester : NodeId)
      → ((x y : SwarmDefinition fl)
          → fl.less_eq (score r x) (score r y) ≡ false
          → fl.less_eq (score r y) (score r x) ≡ true)
      → ((a b c : fl.F64) → fl.less_eq a b ≡ true → fl.less_eq b c ≡ true → fl.less_eq a c ≡ true)
      → is_contributing requester r ≡ true
      → Chosen r
          (λ a b. fl.less_eq a b ≡ true)
          model_id
          (or_empty (lookup text_dec model_id r.swarms))
          (select_swarm model_id requester r)
  select_swarm_best r model_id requester compares transitive =
      select_swarm-Chosen r (λ a b. fl.less_eq a b ≡ true) (λ a b h. h) compares
        (λ x. elim (Bool-cases (fl.less_eq (score r x) (score r x))) [
          | inl y ↦ y
          | inr n ↦ compares x x n
        ])
        transitive model_id requester

  -- After `set_contributing` with `false`, the peer is answered an authorization error, whatever the
  -- swarms are and whatever it contributed before.
  pub select_swarm_gated :
      (r : SwarmRouter fl) (model_id : Text) (peer : NodeId)
      → select_swarm model_id peer (set_contributing peer false r)
        ≡ err (MeshError.auth (codes "You must contribute to use the network."))
  unfolding select_swarm
  select_swarm_gated r model_id peer = rw gone refl
    where
      gone : is_contributing peer (set_contributing peer false r) ≡ false
      gone =
          unfold is_contributing set_contributing in
          rw (lookup-remove_self ℕ_discrete peer r.contributing_peers) refl
