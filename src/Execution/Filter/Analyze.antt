-- ===== src/Execution/Filter/Analyze.antt =====
-- `_analyze` of src/execution/operators/filter.ts: the plan that a predicate gives.
--
-- `data_type` is the type that a column reference carries, `can_parallelize` the test of the dispatch.
pub mod Plans
pub mod Truth
pub mod Sound
pub mod Chunk
use query_engine.Prelude.{
  ℕ, String, Bool, true, false, not, ◌&&◌, ◌||◌, Option, none, some, if◌then◌else◌,
}
use query_engine.Values.{Value, null, is_null}
use query_engine.Values.Ops.{BinaryOp, eq, lt, gt, le, ge, and, or}
use query_engine.Exprs.{ColumnRef, BoundExpr, column_ref, literal, binary, between}
use query_engine.Execution.Columns.{DataType, is_fixed_width, ColumnMapping, optional_column_index}
use query_engine.Execution.Filter.{
  FilterOperation, filter_eq, filter_lt, filter_gt, filter_le, filter_ge, simple, between_leaf,
  FilterPlan, leaf_plan, and_plan, or_plan,
}

unfoldable pub op_to_filter : BinaryOp → Option FilterOperation
op_to_filter eq = some filter_eq
op_to_filter lt = some filter_lt
op_to_filter gt = some filter_gt
op_to_filter le = some filter_le
op_to_filter ge = some filter_ge
op_to_filter _ = none

-- What is not there is none, and null as a literal.
unfoldable pub extract_column_and_literal :
    {F : Type 0} → BoundExpr F → BoundExpr F → Option ColumnRef × Value F
extract_column_and_literal (column_ref r) (literal v) = (some r, v)
extract_column_and_literal (literal v) (column_ref r) = (some r, v)
extract_column_and_literal l r = (none, null)

unfoldable pub extract_literal_value : {F : Type 0} → BoundExpr F → Value F
extract_literal_value (literal v) = v
extract_literal_value e = null

module _ {F : Type 0} (upper : String → String) (data_type : ColumnRef → DataType)
    (can_parallelize : FilterOperation → DataType → Bool) (mapping : Option ColumnMapping) where
  abbrev pub simple_plan : FilterOperation → Value F → Option ℕ → Option (FilterPlan F)
  simple_plan operation v none = none
  simple_plan operation v (some index) = some (leaf_plan index (simple operation v))

  abbrev pub compare_column : FilterOperation → Option ColumnRef → Value F → Option (FilterPlan F)
  unfolding is_null is_fixed_width optional_column_index
  compare_column operation none v = none
  compare_column operation (some r) v =
      if is_null v
      then none
      else if not (is_fixed_width (data_type r))
      then none
      else if not (can_parallelize operation (data_type r))
      then none
      else simple_plan operation v (optional_column_index upper r mapping)

  abbrev pub compare_by :
      Option FilterOperation → Option ColumnRef × Value F → Option (FilterPlan F)
  compare_by none found = none
  compare_by (some operation) found = compare_column operation (found.0) (found.1)

  unfoldable pub analyze_comparison : BinaryOp → BoundExpr F → BoundExpr F → Option (FilterPlan F)
  unfolding op_to_filter extract_column_and_literal compare_column
  analyze_comparison op l r = compare_by (op_to_filter op) (extract_column_and_literal l r)

  abbrev pub between_plan : Value F → Value F → Option ℕ → Option (FilterPlan F)
  between_plan low high none = none
  between_plan low high (some index) = some (leaf_plan index (between_leaf low high))

  unfoldable pub analyze_between : BoundExpr F → BoundExpr F → BoundExpr F → Option (FilterPlan F)
  unfolding is_null is_fixed_width optional_column_index extract_literal_value
  analyze_between (column_ref r) lo hi =
      if not (is_fixed_width (data_type r))
      then none
      else if is_null (extract_literal_value lo) || is_null (extract_literal_value hi)
      then none
      else between_plan (extract_literal_value lo) (extract_literal_value hi)
          (optional_column_index upper r mapping)
  analyze_between e lo hi = none

  -- `_analyzeLogical`, from the plans of the sides
  unfoldable pub analyze_logical :
      BinaryOp → Option (FilterPlan F) → Option (FilterPlan F) → Option (FilterPlan F)
  analyze_logical and (some l) (some r) = some (and_plan l r)
  analyze_logical or (some l) (some r) = some (or_plan l r)
  analyze_logical op l r = none

  abbrev pub or_else : Option (FilterPlan F) → Option (FilterPlan F) → Option (FilterPlan F)
  or_else (some plan) other = some plan
  or_else none other = other

  unfoldable pub analyze : BoundExpr F → Option (FilterPlan F)
  unfolding analyze_comparison analyze_between analyze_logical
  analyze (binary op l r) =
      or_else (analyze_logical op (analyze l) (analyze r)) (analyze_comparison op l r)
  analyze (between negated e lo hi) = analyze_between e lo hi
  analyze _ = none
