-- ===== src/Swarm/Formation/Clique.antt =====
-- The candidates of a round: crates/hivebear-mesh/src/swarm/formation.rs.
use hive_bear.Prelude.{
  ℕ, suc, ◌≤◌, ◌≡◌, refl, true, ◌&&◌, ◌||◌, List, [], ◌∷◌, ◌++◌, arith, length, ltb, ◌==◌,
  Bool-cases, inl, inr, All, All-append, length-append, max,
}
use hive_bear.Float.{Float}
use hive_bear.Peer.{PeerInfo}
use hive_bear.Swarm.Formation.Models.{FormationConfig}
use hive_bear.Swarm.Formation.Candidates.{Slot, matrix_get, within, all_close, consider, gather}

module _ {fl : Float} where
  -- Each peer is within the limit of every peer that follows it.
  abbrev pub IsClique : fl.F64 → List (ℕ × PeerInfo fl) → Type 0
  IsClique limit [] = Unit
  IsClique limit (c ∷ cs) =
      All (λ d. within fl limit (matrix_get c d) ≡ true) cs × IsClique limit cs

  -- The candidates are a clique of at most the pipeline depth, or the first of them alone.
  abbrev pub IsGroup : FormationConfig fl → ℕ × PeerInfo fl → List (ℕ × PeerInfo fl) → Type 0
  IsGroup config c [] = ⊥
  IsGroup config c (d ∷ ds) =
      (d ≡ c)
      × IsClique config.max_latency_ms (d ∷ ds)
      × (length (d ∷ ds) ≤ max 1 config.max_pipeline_depth)

  IsClique-snoc :
      (config : FormationConfig fl) (c : ℕ × PeerInfo fl) (cs : List (ℕ × PeerInfo fl))
      → all_close config c cs ≡ true
      → IsClique config.max_latency_ms cs
      → IsClique config.max_latency_ms (cs ++ c ∷ [])
  unfolding all_close
  IsClique-snoc config c [] h q = (tt, tt)
  IsClique-snoc config c (d ∷ cs) h q = (
    All-append (λ e. within fl config.max_latency_ms (matrix_get d e) ≡ true) cs (c ∷ []) q.0
        (ground (arith, h), tt),
    IsClique-snoc config c cs (ground (arith, h)) q.1,
  )

  consider-IsGroup :
      (config : FormationConfig fl) (i : ℕ) (s : Slot fl) (j : ℕ) (c : ℕ × PeerInfo fl)
      (cands : List (ℕ × PeerInfo fl))
      → IsGroup config c cands
      → IsGroup config c (consider config i s j cands)
  unfolding consider
  consider-IsGroup config i s j c [] q = absurd q
  consider-IsGroup config i s j c (d ∷ ds) q = elim (Bool-cases (i == j || s.assigned)) [
    | inl skip ↦ rw skip q
    | inr free ↦
        elim (Bool-cases (
          all_close config (j, s.peer) (d ∷ ds)
          && ltb (length (d ∷ ds)) config.max_pipeline_depth)) [
            | inr far ↦ rw (free, far) q
            | inl near ↦
                rw (free, near)
                  (
                    q.0,
                    IsClique-snoc config (j, s.peer) (d ∷ ds) (ground (arith, near)) q.1,
                    ground (arith, near, length-append ds ((j, s.peer) ∷ [])),
                  )
          ]
  ]

  gather-keeps-IsGroup :
      (config : FormationConfig fl) (i : ℕ) (c : ℕ × PeerInfo fl) (slots : List (Slot fl)) (j : ℕ)
      (cands : List (ℕ × PeerInfo fl))
      → IsGroup config c cands
      → IsGroup config c (gather config i slots j cands)
  unfolding gather
  gather-keeps-IsGroup config i c [] j cands q = q
  gather-keeps-IsGroup config i c (s ∷ slots) j cands q =
      gather-keeps-IsGroup config i c slots (suc j) (consider config i s j cands)
        (consider-IsGroup config i s j c cands q)

  -- The search from one peer gives a group that starts with that peer, in which every two peers are
  -- within the latency limit, and which has at most as many peers as the pipeline may have stages,
  -- where that is at least 1.
  pub gather-IsGroup :
      (config : FormationConfig fl) (i : ℕ) (c : ℕ × PeerInfo fl) (slots : List (Slot fl)) (j : ℕ)
      → IsGroup config c (gather config i slots j (c ∷ []))
  gather-IsGroup config i c slots j =
      gather-keeps-IsGroup config i c slots j (c ∷ []) (refl, (tt, tt), omega arith)

  pub IsGroup-length :
      (config : FormationConfig fl) (c : ℕ × PeerInfo fl) (cands : List (ℕ × PeerInfo fl))
      → IsGroup config c cands
      → length cands ≤ max 1 config.max_pipeline_depth
  IsGroup-length config c [] q = absurd q
  IsGroup-length config c (d ∷ ds) q = q.2
