-- ===== src/Parallel/Morsels/Drain.antt =====
-- `drain` of src/parallel/morsel-scheduler.ts, by one worker.
use query_engine.Prelude.{
  count_up, ℕ, zero, suc, ◌+◌, ◌-◌, ◌≤◌, ◌<◌, min, ◌≡◌, ap, ap₂, ◌∙◌, List, [], ◌∷◌, ◌++◌, arith,
  ltb, ltb→lt, Bool-cases, inl, inr,
}
use query_engine.Parallel.Morsels.{Morsels, MorselRange, next, drain, morsel_scheduler}
use query_engine.Parallel.Morsels.Partition.{
  units, count_up-claim, range_at-below, range_at-done, to_int32-small,
}

abbrev pub drained_units : List MorselRange → List ℕ
drained_units [] = []
drained_units (r ∷ rest) = units r ++ drained_units rest

drain-count_up :
    (fuel : ℕ) (s : Morsels)
    → 1 ≤ s.units_per_morsel
    → s.total_units - s.counter < fuel
    → s.counter ≤ s.total_units + s.units_per_morsel
    → s.total_units + s.units_per_morsel < 2147483648
    → drained_units (drain fuel s) ≡ count_up s.counter (s.total_units - s.counter)
unfolding drain next
drain-count_up zero s some_unit enough near small = absurd (omega arith)
drain-count_up (suc fuel) s some_unit enough near small =
    let c = s.counter in
    let u = s.units_per_morsel in
    let total = s.total_units in
    rw (to_int32-small c (omega arith)) (elim (Bool-cases (ltb c total)) [
      | inl e ↦ rw (range_at-below s c (ltb→lt _ _ e)) (
          ap (count_up c (min (c + u) total - c) ++◌) (
            drain-count_up fuel (next s).1 some_unit (ground arith) (ground arith) small
            ∙ ap₂ count_up {y = c + u} {v = min total (total - (c + u))} (ground arith)
                (ground arith))
          ∙ count_up-claim c u total total
          ∙ ap (count_up c) (omega arith))
      | inr e ↦ rw (range_at-done s c (ground arith)) (ap (count_up c) {x = 0} (ground arith))
    ])

-- If the total and one morsel together stay below 2^31, then a worker alone that drains a new
-- scheduler, with fuel for more calls than there are units, gets the units below the total, each
-- once and in order.
pub drain-units :
    (fuel total per_morsel : ℕ)
    → total < fuel
    → total + (morsel_scheduler total per_morsel).units_per_morsel < 2147483648
    → drained_units (drain fuel (morsel_scheduler total per_morsel)) ≡ count_up 0 total
unfolding morsel_scheduler
drain-units fuel total per_morsel enough small =
    drain-count_up fuel (morsel_scheduler total per_morsel) (omega arith) (omega arith)
      (omega arith) small
    ∙ ap (count_up 0) (omega arith)
