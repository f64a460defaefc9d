-- ===== src/Tests/Execution.antt =====
-- A chunk of three rows with one column, 1, 2 and 3, where the 3 may stand for a null.
use query_engine.Prelude.{
  ℕ, zero, suc, ◌≡◌, refl, sym, Bool, true, false, Option, none, some, List, [], ◌∷◌, length,
  count_up, get_elem?, ltb, ◌==◌, ◌<◌, arith,
}
use mathlib.Core.Option.{some-injective}
use query_engine.Values.{Value, number}
use query_engine.Execution.Filter.{
  Column, DataChunk, Leaf, FilterPlan, simple, filter_lt, filter_gt, leaf_plan, and_plan, or_plan,
  keep, process, execute_parallel, apply_selection_vector, leaf_result, column_data, drop_null_rows,
  empty_chunk, intersect_sorted, union_sorted,
}
use query_engine.Execution.Filter.Merge.{intersect_sorted-keep, union_sorted-keep}
use query_engine.Execution.Filter.Selected.{process-conjunction_of_selected}
use query_engine.Execution.Filter.Conjunction.{Keeps}
use query_engine.Execution.Filter.Process.{holds_at, plan_holds, Dispatches, process-Keeps}
use query_engine.Execution.Filter.AllRows.{process-conjunction_of_all_rows}
use query_engine.Execution.Filter.Disjunction.{process-disjunction_of_all_rows}

abbrev below_3 : ℕ → Bool
below_3 i = ltb i 3

abbrev above_1 : ℕ → Bool
above_1 i = ltb 1 i

intersect_sorted-keep_example : intersect_sorted (1 ∷ 2 ∷ []) (2 ∷ 5 ∷ []) ≡ 2 ∷ []
intersect_sorted-keep_example =
    intersect_sorted-keep below_3 above_1 0 (1 ∷ 2 ∷ 5 ∷ [])
      (omega arith, (omega arith, (omega arith, tt)))

union_sorted-keep_example : union_sorted (1 ∷ 2 ∷ []) (2 ∷ 5 ∷ []) ≡ 1 ∷ 2 ∷ 5 ∷ []
union_sorted-keep_example =
    union_sorted-keep below_3 above_1 0 (1 ∷ 2 ∷ 5 ∷ [])
      (omega arith, (omega arith, (omega arith, tt)))

abbrev test : Leaf ℕ → Value ℕ → Bool
test (simple filter_lt (number k)) (number v) = ltb v k
test (simple filter_gt (number k)) (number v) = ltb k v
test leaf v = false

abbrev dispatch : List (Value ℕ) → Leaf ℕ → Option (List ℕ)
dispatch values leaf =
    some (keep (λ i. holds_at test leaf (get_elem? values i)) (count_up 0 (length values)))

dispatch-Dispatches : Dispatches test dispatch
dispatch-Dispatches values leaf sv e = sym (some-injective _ _ e)

abbrev column : Bool → Column ℕ
column nulls = record {
  data_values = some (number 1 ∷ number 2 ∷ number 3 ∷ []);
  has_nulls = nulls;
  is_null_at = λ i. i == 2;
}

abbrev chunk : Bool → DataChunk ℕ
chunk nulls = record { columns = column nulls ∷ []; size = 3; selection_vector = none }

abbrev above : ℕ → FilterPlan ℕ
above k = leaf_plan 0 (simple filter_gt (number k))

abbrev below : ℕ → FilterPlan ℕ
below k = leaf_plan 0 (simple filter_lt (number k))

agree :
    (i : ℕ)
    → i < 3
    → plan_holds test (chunk true).columns (and_plan (above 1) (below 4)) i ≡ (i == 1)
unfolding column_data
agree zero h = refl
agree (suc zero) h = refl
agree (suc (suc zero)) h = refl
agree (suc (suc (suc i))) h = absurd (omega arith)

-- a > 1 AND a < 4, of which only 2 is left, as the 3 stands for a null
process-Keeps_example :
    Keeps 3
      (λ i. i == 1)
      (process dispatch (some (and_plan (above 1) (below 4))) (λ i. i == 1) (chunk true))
unfolding execute_parallel leaf_result column_data
process-Keeps_example =
    process-Keeps test dispatch dispatch-Dispatches (chunk true) refl (and_plan (above 1) (below 4))
      (λ i. i == 1)
      ((_, _, _, refl, refl, refl, refl), (_, _, _, refl, refl, refl, refl), (_, refl), (_, refl))
      (omega arith) agree

-- The same chunk with the rows 0 and 1 selected
process-conjunction_of_selected_example :
    process dispatch
      (some (and_plan (above 0) (below 4)))
      (λ i. true)
      (record { columns = column false ∷ []; size = 2; selection_vector = some (0 ∷ 1 ∷ []) })
    ≡ empty_chunk
        (record { columns = column false ∷ []; size = 2; selection_vector = some (0 ∷ 1 ∷ []) })
process-conjunction_of_selected_example =
    process-conjunction_of_selected (column false ∷ []) 2 (0 ∷ 1 ∷ []) dispatch (above 0) (below 4)
      (λ i. true)

-- a > 0 AND a < 3 AND a > 1
process-conjunction_of_all_rows_example :
    process dispatch
      (some (and_plan (and_plan (above 0) (below 3)) (above 1)))
      (λ i. i == 1)
      (chunk false)
    ≡ empty_chunk (chunk false)
unfolding execute_parallel leaf_result column_data apply_selection_vector drop_null_rows
process-conjunction_of_all_rows_example =
    process-conjunction_of_all_rows dispatch (chunk false) refl (omega arith) (above 0) (below 3)
      (above 1) (λ i. i == 1) _ refl refl (omega arith)

zero_below : (k : ℕ) → k < 3 → plan_holds test (chunk false).columns (above 0) k ≡ true
unfolding column_data
zero_below zero h = refl
zero_below (suc zero) h = refl
zero_below (suc (suc zero)) h = refl
zero_below (suc (suc (suc k))) h = absurd (omega arith)

-- a > 0 OR a < 3: the 3 is lost.
process-disjunction_of_all_rows_example :
    Keeps 3
      (plan_holds test (chunk false).columns (below 3))
      (process dispatch (some (or_plan (above 0) (below 3))) (λ i. true) (chunk false))
    × ¬ (
        Keeps 3
          (plan_holds test (chunk false).columns (or_plan (above 0) (below 3)))
          (process dispatch (some (or_plan (above 0) (below 3))) (λ i. true) (chunk false)))
unfolding column_data
process-disjunction_of_all_rows_example =
    process-disjunction_of_all_rows test dispatch dispatch-Dispatches (chunk false) refl 0 0
      (simple filter_gt (number 0)) (simple filter_lt (number 3)) (λ i. true) 0 2
      (_, _, _, refl, refl, refl, refl) (_, _, _, refl, refl, refl, refl) zero_below (omega arith)
      refl (omega arith) refl
