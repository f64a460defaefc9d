-- ===== src/Execution/Filter/AllRows.antt =====
-- The sides of src/execution/operators/filter.ts that keep every row of a chunk: their result is the
-- chunk itself, which has no selection vector.
use query_engine.Prelude.{
  ℕ, ◌≤◌, ◌≡◌, refl, sym, subst, ap, ap₂, ◌∙◌, Bool, false, Option, none, some, List, ◌==◌, arith,
}
use query_engine.Values.{Value}
use query_engine.Execution.Filter.{
  DataChunk, Leaf, FilterPlan, and_plan, empty_chunk, and_result, merge_selected, execute_parallel,
  process, intersect_sorted,
}

module _ {F : Type 0} (filter_parallel : List (Value F) → Leaf F → Option (List ℕ))
    (chunk : DataChunk F) (fresh : chunk.selection_vector ≡ none) (some_row : 1 ≤ chunk.size) where
  positive : (n : ℕ) → 1 ≤ n → (n == 0) ≡ false
  positive n h = ground arith

  and_result-all_rows :
      (m : DataChunk F) → 1 ≤ m.size → and_result chunk (some chunk) (some m) ≡ none
  unfolding and_result
  and_result-all_rows m h =
      rw (positive chunk.size some_row, positive m.size h)
        (subst (λ s. merge_selected intersect_sorted chunk s m.selection_vector none none ≡ none)
          (sym fresh) (no_merge m.selection_vector))
    where
      no_merge :
          (s : Option (List ℕ)) → merge_selected intersect_sorted chunk none s none none ≡ none
      no_merge none = refl
      no_merge (some sv) = refl

  process-result :
      (plan : FilterPlan F) (evaluator : ℕ → Bool) (result : DataChunk F)
      → execute_parallel filter_parallel chunk plan ≡ some result
      → process filter_parallel (some plan) evaluator chunk ≡ result
  unfolding process
  process-result plan evaluator result e = rw (positive chunk.size some_row, e) refl

  conjunction-empty :
      (first second third : FilterPlan F) (kept : DataChunk F)
      → execute_parallel filter_parallel chunk first ≡ some chunk
      → execute_parallel filter_parallel chunk second ≡ some kept
      → 1 ≤ kept.size
      → execute_parallel filter_parallel chunk (and_plan (and_plan first second) third)
        ≡ some (empty_chunk chunk)
  unfolding execute_parallel
  conjunction-empty first second third kept f s h =
      let rest = execute_parallel filter_parallel chunk third in
      ap (λ l. and_result chunk l rest) (ap₂ (and_result chunk) f s ∙ and_result-all_rows kept h)
      ∙ no_left rest
    where
      no_left : (r : Option (DataChunk F)) → and_result chunk none r ≡ some (empty_chunk chunk)
      no_left none = refl
      no_left (some c) = refl

  -- Let a chunk have rows and no selection. If the first test of a conjunction of three keeps every row
  -- and the second keeps some, then the filter keeps no row, whatever the evaluator says.
  pub process-conjunction_of_all_rows :
      (first second third : FilterPlan F) (evaluator : ℕ → Bool) (kept : DataChunk F)
      → execute_parallel filter_parallel chunk first ≡ some chunk
      → execute_parallel filter_parallel chunk second ≡ some kept
      → 1 ≤ kept.size
      → process filter_parallel (some (and_plan (and_plan first second) third)) evaluator chunk
        ≡ empty_chunk chunk
  process-conjunction_of_all_rows first second third evaluator kept f s h =
      process-result (and_plan (and_plan first second) third) evaluator (empty_chunk chunk)
        (conjunction-empty first second third kept f s h)
