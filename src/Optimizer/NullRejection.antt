-- ===== src/Optimizer/NullRejection.antt =====
-- src/optimizer/passes/null-rejection.ts: does a predicate reject the rows in which the columns of
-- one side of an outer join are null?
pub mod Sound
pub mod Unsound
use query_engine.Prelude.{
  String, Bool, true, false, not, ◌&&◌, ◌||◌, List, [], ◌∷◌, if◌then◌else◌, str_eq,
}
use query_engine.Values.{Value, null, text, boolean, is_null, is_true, is_false}
use query_engine.Values.Ops.{BinaryOp, and, or}
use query_engine.Exprs.{
  ColumnRef, BoundExpr, column_ref, literal, binary, unary, between, in_list, is_null_test,
  computed,
}

-- A result is a literal's value or the marker 'UNKNOWN', which is a string of the same type.
abbrev pub EvalResult : Type 0 → Type 0
EvalResult F = Value F

abbrev pub unknown : {F : Type 0} → EvalResult F
unknown = text "UNKNOWN"

unfoldable pub is_unknown : {F : Type 0} → EvalResult F → Bool
is_unknown (text s) = str_eq s "UNKNOWN"
is_unknown _ = false

abbrev pub NullColumnPredicate : Type 0
NullColumnPredicate = ColumnRef → Bool

pub record PlanRefs : Type 0 where
  pub aliases : List String
  pub columns : List String

pub data NullColumnSource : Type 0 where
  plan_refs : PlanRefs → NullColumnSource
  predicate : NullColumnPredicate → NullColumnSource

unfoldable pub has : List String → String → Bool
has [] s = false
has (x ∷ xs) s = str_eq x s || has xs s

-- `upper` is JavaScript's `toUpperCase`.
unfoldable pub supplies_null : (String → String) → NullColumnSource → NullColumnPredicate
unfolding has
supplies_null upper (predicate p) ref = p ref
supplies_null upper (plan_refs refs) ref =
    if str_eq ref.table_alias ""
    then has refs.columns (upper ref.column_name)
    else has refs.aliases (upper ref.table_alias)

unfoldable pub and_results : {F : Type 0} → EvalResult F → EvalResult F → EvalResult F
unfolding is_false is_null is_unknown
and_results l r =
    if is_false l || is_false r
    then boolean false
    else if is_null l || is_null r
    then null
    else if is_unknown l || is_unknown r
    then unknown
    else boolean true

unfoldable pub or_results : {F : Type 0} → EvalResult F → EvalResult F → EvalResult F
unfolding is_true is_null is_unknown
or_results l r =
    if is_true l || is_true r
    then boolean true
    else if is_unknown l || is_unknown r
    then unknown
    else if is_null l && is_null r
    then null
    else boolean false

-- Any other operator: null if an operand is.
unfoldable pub strict_results : {F : Type 0} → EvalResult F → EvalResult F → EvalResult F
unfolding is_null
strict_results l r = if is_null l || is_null r then null else unknown

unfoldable pub binary_result : {F : Type 0} → BinaryOp → EvalResult F → EvalResult F → EvalResult F
unfolding and_results or_results strict_results
binary_result and l r = and_results l r
binary_result or l r = or_results l r
binary_result _ l r = strict_results l r

unfoldable pub unary_result : {F : Type 0} → EvalResult F → EvalResult F
unfolding is_null
unary_result r = if is_null r then null else unknown

unfoldable pub is_null_result : {F : Type 0} → Bool → EvalResult F → EvalResult F
unfolding is_null is_unknown
is_null_result negated r =
    if is_unknown r then unknown else boolean (if negated then not (is_null r) else is_null r)

unfoldable pub evaluate_with_nulls : {F : Type 0} → NullColumnPredicate → BoundExpr F → EvalResult F
unfolding binary_result unary_result is_null_result
evaluate_with_nulls null_refs (literal v) = v
evaluate_with_nulls null_refs (column_ref r) = if null_refs r then null else unknown
evaluate_with_nulls null_refs (binary op l r) =
    binary_result op (evaluate_with_nulls null_refs l) (evaluate_with_nulls null_refs r)
evaluate_with_nulls null_refs (unary op e) = unary_result (evaluate_with_nulls null_refs e)
evaluate_with_nulls null_refs (is_null_test negated e) =
    is_null_result negated (evaluate_with_nulls null_refs e)
evaluate_with_nulls null_refs (between _ _ _ _) = unknown
evaluate_with_nulls null_refs (in_list _ _ _) = unknown
evaluate_with_nulls null_refs (computed _) = unknown

unfoldable pub is_null_rejecting :
    {F : Type 0} → (String → String) → BoundExpr F → NullColumnSource → Bool
unfolding is_null is_false
is_null_rejecting upper e source =
    let r = evaluate_with_nulls (supplies_null upper source) e in is_false r || is_null r
