-- ===== src/Pipeline/Tests.antt =====
-- The theorems on the running pipeline at concrete inputs.
use hive_bear.Prelude.{◌≤◌, ◌≡◌, refl, some, [], ◌∷◌, arith, leb, ℕ_discrete}
use hive_bear.Prelude.Map.{lookup}
use hive_bear.Float.{fixed_point}
use hive_bear.Transport.Dtype.{TensorDtype}
use hive_bear.Pipeline.Checkpoint.{
  ActivationCheckpoint, CheckpointStore, save, get, latest, session_length, save_lem,
}
use hive_bear.Pipeline.Health.{
  PeerHealthState, PeerHealthMonitor, fresh_state, failures, record_pong_received, is_dead,
  dead_after_failures,
}

abbrev third : ActivationCheckpoint
third = record {
  token_position = 3;
  activation_data = 1 ∷ [];
  shape = 1 ∷ [];
  dtype = TensorDtype.f16;
  source_layer = 8;
  timestamp = 30;
}

abbrev two_checkpoints : CheckpointStore
two_checkpoints = record {
  checkpoints =
      (
        7,
        (1, record third { token_position = 1; timestamp = 10 })
            ∷ (2, record third { token_position = 2; timestamp = 20 })
            ∷ [],
      )
      ∷ [];
  max_per_session = 2;
}

save_lem_example :
    (get 7 3 (save 7 third two_checkpoints) ≡ some third)
    × (session_length 7 (save 7 third two_checkpoints) ≤ 2)
    × (get 9 1 (save 7 third two_checkpoints) ≡ get 9 1 two_checkpoints)
    × (latest 9 (save 7 third two_checkpoints) ≡ latest 9 two_checkpoints)
save_lem_example =
    save_lem 7 9 1 third two_checkpoints (omega arith)
      (unfold session_length lookup ℕ_discrete in omega arith) (λ e. omega (arith, e))

abbrev failing : PeerHealthState fixed_point
failing = record (fresh_state fixed_point) { consecutive_failures = 2; last_ping_sent = some 5 }

abbrev one_peer : PeerHealthMonitor fixed_point
one_peer = record { states = (4, failing) ∷ []; failure_threshold = 3 }

dead_after_failures_example : is_dead 4 (failures 3 4 (record_pong_received 8 4 one_peer)) ≡ leb 3 3
dead_after_failures_example =
    dead_after_failures 3 8 4 one_peer failing (unfold lookup ℕ_discrete in refl) (omega arith)
