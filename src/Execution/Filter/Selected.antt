-- ===== src/Execution/Filter/Selected.antt =====
-- `process` of src/execution/operators/filter.ts on a chunk that already has a selection.
use query_engine.Prelude.{
  ℕ, ◌≡◌, refl, sym, subst, Bool, true, false, Option, none, some, List, ◌==◌, if◌then◌else◌,
  get_elem?,
}
use query_engine.Values.{Value}
use query_engine.Execution.Filter.{
  Column, DataChunk, Leaf, FilterPlan, leaf_plan, and_plan, or_plan, empty_chunk, leaf_result,
  column_data, and_result, or_result, execute_parallel, process,
}

if-same : {A : Type 0} (b : Bool) (a : A) → (if b then a else a) ≡ a
if-same true a = refl
if-same false a = refl

module _ {F : Type 0} where
  -- No result, or no rows
  abbrev Nothing : Option (DataChunk F) → Type 0
  Nothing none = Unit
  Nothing (some chunk) = (chunk.size ≡ 0) × (chunk.selection_vector ≡ none)

  module _ (columns : List (Column F)) (size : ℕ) (sv : List ℕ) where
    abbrev pub selected : DataChunk F
    selected = record { columns = columns; size = size; selection_vector = some sv }

    leaf_result-Nothing : (column : Option (Column F)) → Nothing (leaf_result selected column none)
    unfolding leaf_result
    leaf_result-Nothing none = tt
    leaf_result-Nothing (some column) = tt

    and_result-empty :
        (l r : Option (DataChunk F))
        → Nothing l
        → and_result selected l r ≡ some (empty_chunk selected)
    unfolding and_result
    and_result-empty none r n = refl
    and_result-empty (some l) none n = refl
    and_result-empty (some l) (some r) n = rw n.0 refl

    or_result-Nothing :
        (l r : Option (DataChunk F)) → Nothing l → Nothing r → Nothing (or_result selected l r)
    unfolding or_result
    or_result-Nothing none r n m = m
    or_result-Nothing (some l) none n m = n
    or_result-Nothing (some l) (some r) n m = rw (n.1, m.1) tt

    module _ (filter_parallel : List (Value F) → Leaf F → Option (List ℕ)) where
      execute_parallel-Nothing :
          (plan : FilterPlan F) → Nothing (execute_parallel filter_parallel selected plan)
      unfolding execute_parallel column_data empty_chunk
      execute_parallel-Nothing (leaf_plan index leaf) =
          leaf_result-Nothing (get_elem? columns index)
      execute_parallel-Nothing (and_plan l r) =
          subst Nothing
            (sym (
              and_result-empty _ (execute_parallel filter_parallel selected r)
                (execute_parallel-Nothing l)))
            (refl, refl)
      execute_parallel-Nothing (or_plan l r) =
          or_result-Nothing _ _ (execute_parallel-Nothing l) (execute_parallel-Nothing r)

      -- A conjunction that runs in parallel on a chunk that already has a selection gives no rows,
      -- whatever the evaluator says of the rows.
      pub process-conjunction_of_selected :
          (l r : FilterPlan F) (evaluator : ℕ → Bool)
          → process filter_parallel (some (and_plan l r)) evaluator selected ≡ empty_chunk selected
      unfolding process execute_parallel
      process-conjunction_of_selected l r evaluator =
          rw
            (and_result-empty _ (execute_parallel filter_parallel selected r)
              (execute_parallel-Nothing l))
            (if-same (size == 0) (empty_chunk selected))
