-- ===== src/Tests/Parallel.antt =====
-- Two workers over 10 units, in morsels of 4.
use query_engine.Prelude.{◌≡◌, [], ◌∷◌, arith}
use query_engine.Parallel.Morsels.{claims, drain, morsel_scheduler}
use query_engine.Parallel.Morsels.Partition.{claimed_units, claims-partition}
use query_engine.Parallel.Morsels.Drain.{drained_units, drain-units}

claims-partition_example :
    claimed_units (claims (0 ∷ 1 ∷ 1 ∷ 0 ∷ []) (morsel_scheduler 10 4))
    ≡ 0 ∷ 1 ∷ 2 ∷ 3 ∷ 4 ∷ 5 ∷ 6 ∷ 7 ∷ 8 ∷ 9 ∷ []
unfolding morsel_scheduler
claims-partition_example = claims-partition (0 ∷ 1 ∷ 1 ∷ 0 ∷ []) 10 4 (omega arith) (omega arith)

drain-units_example :
    drained_units (drain 11 (morsel_scheduler 10 4)) ≡ 0 ∷ 1 ∷ 2 ∷ 3 ∷ 4 ∷ 5 ∷ 6 ∷ 7 ∷ 8 ∷ 9 ∷ []
unfolding morsel_scheduler
drain-units_example = drain-units 11 10 4 (omega arith) (omega arith)
