-- ===== src/Execution/Filter/Disjunction.antt =====
-- A disjunction of src/execution/operators/filter.ts whose left side passes on every row of the chunk.
use query_engine.Prelude.{
  ℕ, zero, suc, ◌+◌, ◌≤◌, ◌<◌, ◌≡◌, refl, sym, subst, ap, ap₂, ◌∙◌, Bool, true, false, Option, none,
  some, List, length, count_up, ◌==◌, ==_iff, arith, Bool-cases, inl, inr,
}
use query_engine.Values.{Value}
use query_engine.Execution.Filter.{
  DataChunk, Leaf, FilterPlan, leaf_plan, or_plan, keep, is_selected, apply_selection_vector,
  or_result, merge_selected, union_sorted, execute_parallel, execute_fallback, or_fallback, process,
}
use query_engine.Execution.Filter.Conjunction.{Keeps, length-count_up}
use query_engine.Execution.Filter.Process.{
  plan_holds, Dispatches, Conjunctive, execute_leaf-passing,
}

keep-count_up :
    (p : ℕ → Bool) (start n : ℕ)
    → ((i : ℕ) → i < start + n → p i ≡ true)
    → keep p (count_up start n) ≡ count_up start n
keep-count_up p start zero h = refl
keep-count_up p start (suc n) h =
    rw (h start (omega arith), keep-count_up p (start + 1) n (λ i l. h i (omega arith))) refl

length-keep-le_count : (p : ℕ → Bool) (start n : ℕ) → length (keep p (count_up start n)) ≤ n
length-keep-le_count p start zero = omega arith
length-keep-le_count p start (suc n) = ground (arith, length-keep-le_count p (start + 1) n)

-- A row that passes is counted, and one that fails is not.
length-keep-passed :
    (p : ℕ → Bool) (start n j : ℕ)
    → start ≤ j
    → j < start + n
    → p j ≡ true
    → 1 ≤ length (keep p (count_up start n))
length-keep-passed p start zero j a b h = absurd (omega arith)
length-keep-passed p start (suc n) j a b h = elim (Bool-cases (start == j)) [
  | inl e ↦ ground (arith, ap p ((==_iff start j).0 e))
  | inr e ↦ ground (arith, length-keep-passed p (start + 1) n j)
]

length-keep-failed :
    (p : ℕ → Bool) (start n k : ℕ)
    → start ≤ k
    → k < start + n
    → p k ≡ false
    → length (keep p (count_up start n)) < n
length-keep-failed p start zero k a b h = absurd (omega arith)
length-keep-failed p start (suc n) k a b h = elim (Bool-cases (start == k)) [
  | inl e ↦ ground (arith, ap p ((==_iff start k).0 e), length-keep-le_count p (start + 1) n)
  | inr e ↦ ground (arith, length-keep-failed p (start + 1) n k)
]

execute_or :
    {F : Type 0} (filter_parallel : List (Value F) → Leaf F → Option (List ℕ)) (chunk : DataChunk F)
    (l r : FilterPlan F)
    → execute_parallel filter_parallel chunk (or_plan l r)
      ≡ or_result chunk
          (execute_parallel filter_parallel chunk l)
          (execute_parallel filter_parallel chunk r)
unfolding execute_parallel
execute_or filter_parallel chunk l r = refl

module _ {F : Type 0} (holds : Leaf F → Value F → Bool)
    (filter_parallel : List (Value F) → Leaf F → Option (List ℕ))
    (right : Dispatches holds filter_parallel) (chunk : DataChunk F)
    (fresh : chunk.selection_vector ≡ none) where
  all_selected : 1 ≤ chunk.size → apply_selection_vector chunk (count_up 0 chunk.size) ≡ chunk
  unfolding apply_selection_vector
  all_selected some_row =
      let n = chunk.size in
      let some_rows : (n == 0) ≡ false = ground arith in
      let same : (n == n) ≡ true = ground arith in
      rw (length-count_up 0 n, some_rows, same, ap is_selected fresh) refl

  some_selected :
      (sv : List ℕ)
      → 1 ≤ length sv
      → length sv < chunk.size
      → apply_selection_vector chunk sv
        ≡ record { columns = chunk.columns; size = length sv; selection_vector = some sv }
  unfolding apply_selection_vector
  some_selected sv a b =
      let present : (length sv == 0) ≡ false = ground arith in
      let fewer : (length sv == chunk.size) ≡ false = ground arith in rw (present, fewer) refl

  or_result-all_rows :
      (kept : DataChunk F) (sv : List ℕ)
      → kept.selection_vector ≡ some sv
      → or_result chunk (some chunk) (some kept) ≡ some kept
  unfolding or_result
  or_result-all_rows kept sv e =
      ap₂ (λ a b. merge_selected union_sorted chunk a b (some kept) (some chunk)) fresh e

  process-or :
      (i j : ℕ) (p q : Leaf F) (evaluator : ℕ → Bool) (kept : DataChunk F) (sv : List ℕ)
      → execute_parallel filter_parallel chunk (leaf_plan i p) ≡ some chunk
      → execute_parallel filter_parallel chunk (leaf_plan j q) ≡ some kept
      → kept.selection_vector ≡ some sv
      → 1 ≤ chunk.size
      → process filter_parallel (some (or_plan (leaf_plan i p) (leaf_plan j q))) evaluator chunk
        ≡ kept
  unfolding process
  process-or i j p q evaluator kept sv e f s some_row =
      let some_rows : (chunk.size == 0) ≡ false = ground arith in
      rw some_rows (
        ap (λ r. or_fallback r (execute_fallback evaluator chunk))
          (execute_or filter_parallel chunk (leaf_plan i p) (leaf_plan j q)
            ∙ ap₂ (or_result chunk) e f
            ∙ or_result-all_rows kept sv s))

  -- The two tests of a disjunction are answered by a dispatch that answers with the positions that pass, on a
  -- chunk with no selection. If the left test passes on every row, and the right test passes on some row
  -- and fails on some row, then the filter keeps exactly the rows on which the right test passes, and
  -- not the rows on which the disjunction holds, which are all rows.
  pub process-disjunction_of_all_rows :
      (i j : ℕ) (p q : Leaf F) (evaluator : ℕ → Bool) (passed failed : ℕ)
      → Conjunctive holds filter_parallel chunk (leaf_plan i p)
      → Conjunctive holds filter_parallel chunk (leaf_plan j q)
      → ((k : ℕ) → k < chunk.size → plan_holds holds chunk.columns (leaf_plan i p) k ≡ true)
      → passed < chunk.size
      → plan_holds holds chunk.columns (leaf_plan j q) passed ≡ true
      → failed < chunk.size
      → plan_holds holds chunk.columns (leaf_plan j q) failed ≡ false
      → Keeps chunk.size
          (plan_holds holds chunk.columns (leaf_plan j q))
          (process filter_parallel (some (or_plan (leaf_plan i p) (leaf_plan j q))) evaluator chunk)
        × ¬ (
            Keeps chunk.size
              (plan_holds holds chunk.columns (or_plan (leaf_plan i p) (leaf_plan j q)))
              (process filter_parallel
                (some (or_plan (leaf_plan i p) (leaf_plan j q)))
                evaluator
                chunk))
  process-disjunction_of_all_rows i j p q evaluator passed failed cl cr every a e b f =
      let n = chunk.size in
      let left = plan_holds holds chunk.columns (leaf_plan i p) in
      let test = plan_holds holds chunk.columns (leaf_plan j q) in
      let either = plan_holds holds chunk.columns (or_plan (leaf_plan i p) (leaf_plan j q)) in
      let sv = keep test (count_up 0 n) in
      let kept : DataChunk F = record {
        columns = chunk.columns;
        size = length sv;
        selection_vector = some sv;
      } in
      let few = length-keep-failed test 0 n failed (omega arith) (omega arith) f in
      let result =
        process-or i j p q evaluator kept sv
          (execute_leaf-passing holds filter_parallel right chunk fresh i p cl
            ∙ ap (λ is. some (apply_selection_vector chunk is))
                (keep-count_up left 0 n (λ m l. every m (omega arith)))
            ∙ ap some (all_selected (omega arith)))
          (execute_leaf-passing holds filter_parallel right chunk fresh j q cr
            ∙ ap some (
                some_selected sv (length-keep-passed test 0 n passed (omega arith) (omega arith) e)
                  few))
          refl (omega arith) in
      (
        subst (λ x. Keeps n test x) (sym result) (record { rows = refl; counted = refl }),
        λ k. absurd (
            omega (
              arith,
              few,
              ap (λ x. x.size) (sym result)
                  ∙ k.counted
                  ∙ ap length
                      (keep-count_up either 0 n (λ m l. ground (arith, every m (omega arith))))
                  ∙ length-count_up 0 n,
            )),
      )
