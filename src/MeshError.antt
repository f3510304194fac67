-- ===== src/MeshError.antt =====
-- Errors of the mesh crate, and results: crates/hivebear-mesh/src/error.rs. Of a message that is
-- formatted, the model keeps the fixed text; an error of another crate is its text.
use hive_bear.Prelude.Text.{Text}

pub data MeshError : Type 0 where
  transport discovery scheduling pipeline trust protocol config peer_disconnected timeout :
      Text → MeshError
  no_peers_available inference serialization io nat_traversal relay peer_exchange auth :
      Text → MeshError
  recovery compression : Text → MeshError

pub data Result {ℓ} (A : Type ℓ) : Type ℓ where
  ok : A → Result A
  err : MeshError → Result A
