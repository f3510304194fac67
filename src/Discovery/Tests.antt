-- ===== src/Discovery/Tests.antt =====
-- The theorems on the peer exchange at concrete inputs.
use hive_bear.Prelude.{◌≤◌, [], ◌∷◌, arith, length}
use hive_bear.Samples.{peer}
use hive_bear.Discovery.Pex.{register, forget, merge, pex_run, pex_run-bound}

pex_run-bound_example :
    length
      (pex_run (register (peer 1 8000) ∷ merge (peer 2 8000 ∷ peer 1 8000 ∷ []) ∷ forget 1 ∷ []) [])
    ≤ 200
pex_run-bound_example =
    pex_run-bound (register (peer 1 8000) ∷ merge (peer 2 8000 ∷ peer 1 8000 ∷ []) ∷ forget 1 ∷ [])
      [] (omega arith)
