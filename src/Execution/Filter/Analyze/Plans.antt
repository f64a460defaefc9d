-- ===== src/Execution/Filter/Analyze/Plans.antt =====
-- What a plan of `_analyze` in src/execution/operators/filter.ts tells of its predicate.
use mathlib.Core.Option.{some-injective}
use query_engine.Prelude.{
  ℕ, String, ◌≡◌, ◌⊎◌, refl, sym, ap, Bool, true, false, not, ◌||◌, Option, none, some,
  if◌then◌else◌, inl, inr,
}
use query_engine.Values.{Value, is_null}
use query_engine.Values.Ops.{BinaryOp, eq, lt, gt, le, ge}
use query_engine.Exprs.{ColumnRef, BoundExpr, column_ref, literal}
use query_engine.Execution.Columns.{DataType, is_fixed_width, ColumnMapping, optional_column_index}
use query_engine.Execution.Filter.{
  FilterOperation, filter_eq, filter_lt, filter_gt, filter_le, filter_ge, simple, between_leaf,
  FilterPlan, leaf_plan,
}
use query_engine.Execution.Filter.Analyze.{
  op_to_filter, extract_column_and_literal, extract_literal_value, analyze_between, simple_plan,
  compare_column, between_plan,
}

abbrev pub filter_op : FilterOperation → BinaryOp
filter_op filter_eq = eq
filter_op filter_lt = lt
filter_op filter_gt = gt
filter_op filter_le = le
filter_op filter_ge = ge

abbrev pub is_column : {F : Type 0} → BoundExpr F → Bool
is_column (column_ref r) = true
is_column e = false

pub extracted :
    {F : Type 0} (l r : BoundExpr F)
    → is_column r ≡ false
    → ((c : ColumnRef) × (v : Value F) × (l ≡ column_ref c) × (r ≡ literal v))
      ⊎ ((extract_column_and_literal l r).0 ≡ none)
unfolding extract_column_and_literal
extracted (column_ref c) (literal v) h = inl (c, v, refl, refl)
extracted (literal v) (column_ref c) h = cc h
extracted l r h = inr refl

guarded :
    {A : Type 0} (a b c : Bool) (o : Option A) (x : A)
    → (if a then none else if not b then none else if not c then none else o) ≡ some x
    → o ≡ some x
guarded true b c o x h = cc h
guarded false false c o x h = cc h
guarded false true false o x h = cc h
guarded false true true o x h = h

guarded_twice :
    {A : Type 0} (a p q : Bool) (o : Option A) (x : A)
    → (if not a then none else if p || q then none else o) ≡ some x
    → (p ≡ false) × (q ≡ false) × (o ≡ some x)
guarded_twice false p q o x h = cc h
guarded_twice true true q o x h = cc h
guarded_twice true false true o x h = cc h
guarded_twice true false false o x h = (refl, refl, h)

pub filter_op-inverse :
    (op : BinaryOp) (operation : FilterOperation)
    → op_to_filter op ≡ some operation
    → filter_op operation ≡ op
unfolding op_to_filter
filter_op-inverse eq operation h = ap filter_op (sym (some-injective _ _ h))
filter_op-inverse lt operation h = ap filter_op (sym (some-injective _ _ h))
filter_op-inverse gt operation h = ap filter_op (sym (some-injective _ _ h))
filter_op-inverse le operation h = ap filter_op (sym (some-injective _ _ h))
filter_op-inverse ge operation h = ap filter_op (sym (some-injective _ _ h))
filter_op-inverse op operation h = cc h

module _ {F : Type 0} (upper : String → String) (data_type : ColumnRef → DataType)
    (can_parallelize : FilterOperation → DataType → Bool) (mapping : Option ColumnMapping) where
  simple_plan-some :
      (operation : FilterOperation) (v : Value F) (o : Option ℕ) (plan : FilterPlan F)
      → simple_plan upper data_type can_parallelize mapping operation v o ≡ some plan
      → (k : ℕ) × (o ≡ some k) × (leaf_plan k (simple operation v) ≡ plan)
  simple_plan-some operation v none plan h = cc h
  simple_plan-some operation v (some k) plan h = (k, refl, some-injective _ _ h)

  pub compare_column-some :
      (operation : FilterOperation) (c : ColumnRef) (v : Value F) (plan : FilterPlan F)
      → compare_column upper data_type can_parallelize mapping operation (some c) v ≡ some plan
      → (k : ℕ) × (optional_column_index upper c mapping ≡ some k)
        × (leaf_plan k (simple operation v) ≡ plan)
  unfolding compare_column
  compare_column-some operation c v plan h =
      simple_plan-some operation v (optional_column_index upper c mapping) plan (
        guarded (is_null v) (is_fixed_width (data_type c)) (can_parallelize operation (data_type c))
          _ plan h)

  between_some :
      (lo hi : Value F) (o : Option ℕ) (plan : FilterPlan F)
      → between_plan upper data_type can_parallelize mapping lo hi o ≡ some plan
      → (k : ℕ) × (o ≡ some k) × (leaf_plan k (between_leaf lo hi) ≡ plan)
  between_some lo hi none plan h = cc h
  between_some lo hi (some k) plan h = (k, refl, some-injective _ _ h)

  not_null-literal :
      (e : BoundExpr F)
      → is_null (extract_literal_value e) ≡ false
      → e ≡ literal (extract_literal_value e)
  unfolding extract_literal_value is_null
  not_null-literal (literal v) h = refl
  not_null-literal e h = cc h

  pub analyze_between-some :
      (c : ColumnRef) (lo hi : BoundExpr F) (plan : FilterPlan F)
      → analyze_between upper data_type can_parallelize mapping (column_ref c) lo hi ≡ some plan
      → (k : ℕ) × (optional_column_index upper c mapping ≡ some k)
        × (lo ≡ literal (extract_literal_value lo))
        × (hi ≡ literal (extract_literal_value hi))
        × (leaf_plan k (between_leaf (extract_literal_value lo) (extract_literal_value hi)) ≡ plan)
  unfolding analyze_between
  analyze_between-some c lo hi plan h =
      let a = extract_literal_value lo in
      let b = extract_literal_value hi in
      let (p, q, g) =
        guarded_twice (is_fixed_width (data_type c)) (is_null a) (is_null b) _ plan h in
      let (k, i, e) = between_some a b (optional_column_index upper c mapping) plan g in
      (k, i, not_null-literal lo p, not_null-literal hi q, e)
