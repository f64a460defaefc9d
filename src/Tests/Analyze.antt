-- ===== src/Tests/Analyze.antt =====
-- Predicates on one column, planned by `_analyze` of src/execution/operators/filter.ts.
use mathlib.Core.Option.{some-injective}
use query_engine.Prelude.{
  ℕ, ◌≡◌, refl, sym, ap, String, Bool, true, false, Option, none, some, List, [], ◌∷◌, length,
  get_elem?, count_up, ◌==◌, arith, subst,
}
use query_engine.Prelude.Int.{ℤ, pos, negsuc}
use query_engine.Values.{Value, null, number, is_true}
use query_engine.Values.Ops.{lt, gt, and}
use query_engine.Exprs.{ColumnRef, Row, BoundExpr, column_ref, literal, binary, between}
use query_engine.Exprs.Eval.{eval}
use query_engine.Execution.Columns.{
  DataType, int32_type, optional_column_index, own_index, index_of,
}
use query_engine.Execution.Filter.{
  Column, DataChunk, FilterOperation, filter_gt, filter_lt, simple, between_leaf, Leaf, FilterPlan,
  leaf_plan, and_plan, keep, process, execute_parallel,
}
use query_engine.Execution.Filter.Conjunction.{Keeps}
use query_engine.Execution.Filter.Process.{holds_at, Dispatches, Conjunctive}
use query_engine.Execution.Filter.Analyze.{analyze}
use query_engine.Execution.Filter.Analyze.Sound.{
  leaf_holds, plan_on, analyze_sound, analyze-flipped, analyze-not_between,
}
use query_engine.Execution.Filter.Analyze.Chunk.{cell_at, is_true_at, process-analyze}
use query_engine.Tests.Machine.{nat_js}

abbrev same_name : String → String
same_name s = s

abbrev all_int32 : ColumnRef → DataType
all_int32 c = int32_type

abbrev always : FilterOperation → DataType → Bool
always operation t = true

abbrev a_column : ColumnRef
a_column = record {
  table_alias = "T";
  column_name = "A";
  column_index = pos 0;
  depth = 0;
  is_correlated = false;
}

abbrev inside : BoundExpr ℕ
inside =
    binary and (binary gt (column_ref a_column) (literal (number 1)))
      (between false (column_ref a_column) (literal (number 0)) (literal (number 3)))

abbrev inside_plan : FilterPlan ℕ
inside_plan =
    and_plan (leaf_plan 0 (simple filter_gt (number 1)))
      (leaf_plan 0 (between_leaf (number 0) (number 3)))

abbrev two : ℕ → Value ℕ
two k = number 2

abbrev two_row : Row ℕ
two_row c = number 2

-- a > 1 AND a BETWEEN 0 AND 3, at 2
analyze_sound_example : plan_on nat_js two inside_plan ≡ is_true (eval nat_js two_row inside)
unfolding analyze
analyze_sound_example =
    analyze_sound nat_js same_name all_int32 always none two_row two (λ c k e. refl) inside
      inside_plan refl refl

-- 1 < a, at 2, is planned as a < 1.
analyze-flipped_example :
    plan_on nat_js two (leaf_plan 0 (simple filter_lt (number 1)))
    ≡ is_true (eval nat_js two_row (binary lt (column_ref a_column) (literal (number 1))))
unfolding analyze
analyze-flipped_example =
    analyze-flipped nat_js same_name all_int32 always none two_row two (λ c k e. refl) lt (number 1)
      a_column (leaf_plan 0 (simple filter_lt (number 1))) refl

-- a NOT BETWEEN 0 AND 3
analyze-not_between_example :
    plan_on nat_js two (leaf_plan 0 (between_leaf (number 0) (number 3)))
    ≡ is_true (
        eval nat_js two_row
          (between false (column_ref a_column) (literal (number 0)) (literal (number 3))))
unfolding analyze
analyze-not_between_example =
    analyze-not_between nat_js same_name all_int32 always none two_row two (λ c k e. refl)
      (column_ref a_column) (literal (number 0)) (literal (number 3))
      (leaf_plan 0 (between_leaf (number 0) (number 3))) refl

abbrev column : Column ℕ
column = record {
  data_values = some (number 1 ∷ number 2 ∷ number 3 ∷ []);
  has_nulls = true;
  is_null_at = λ i. i == 2;
}

abbrev chunk : DataChunk ℕ
chunk = record { columns = column ∷ []; size = 3; selection_vector = none }

abbrev dispatch : List (Value ℕ) → Leaf ℕ → Option (List ℕ)
dispatch values leaf = some (
    keep (λ i. holds_at (leaf_holds nat_js) leaf (get_elem? values i)) (count_up 0 (length values)))

dispatch-Dispatches : Dispatches (leaf_holds nat_js) dispatch
dispatch-Dispatches values leaf sv e = sym (some-injective _ _ e)

abbrev own_cell : ℕ → ℤ → Value ℕ
own_cell i (pos k) = cell_at (get_elem? chunk.columns k) i
own_cell i (negsuc k) = null

abbrev rows : ℕ → Row ℕ
rows i c = own_cell i c.column_index

own_cell-found :
    (i : ℕ) (z : ℤ) (k : ℕ)
    → index_of same_name (own_index z) ≡ some k
    → own_cell i z ≡ cell_at (get_elem? chunk.columns k) i
own_cell-found i (pos j) k e =
    ap (λ l. cell_at (get_elem? chunk.columns l) i) (some-injective _ _ e)
own_cell-found i (negsuc j) k e = cc

rows-found :
    (i : ℕ) (c : ColumnRef) (k : ℕ)
    → optional_column_index same_name c none ≡ some k
    → rows i c ≡ cell_at (get_elem? chunk.columns k) i
unfolding optional_column_index
rows-found i c k e = own_cell-found i c.column_index k e

inside-Conjunctive :
    (plan : FilterPlan ℕ)
    → analyze same_name all_int32 always none inside ≡ some plan
    → Conjunctive (leaf_holds nat_js) dispatch chunk plan
unfolding analyze execute_parallel leaf_holds
inside-Conjunctive plan e =
    subst (Conjunctive (leaf_holds nat_js) dispatch chunk) (some-injective _ _ e)
      ((_, _, _, refl, refl, refl, refl), (_, _, _, refl, refl, refl, refl), (_, refl), (_, refl))

-- The 3 stands for a null.
process-analyze_example : Keeps 3 (is_true_at nat_js rows inside) (
    process dispatch
      (analyze same_name all_int32 always none inside)
      (is_true_at nat_js rows inside)
      chunk)
process-analyze_example =
    process-analyze nat_js same_name all_int32 always none dispatch dispatch-Dispatches chunk refl
      (omega arith) rows rows-found inside refl inside-Conjunctive
