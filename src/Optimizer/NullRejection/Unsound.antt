-- ===== src/Optimizer/NullRejection/Unsound.antt =====
-- When `is_null_rejecting` answers yes wrongly: below another operator, the null that it computes
-- for an AND stands for "null or false".
use query_engine.Prelude.{String, ◌≡◌, true, false, arith}
use query_engine.Values.{Js, null, boolean, is_null, is_false}
use query_engine.Values.Ops.{and, not_op, binary_value_op, unary_value_op, and_value}
use query_engine.Exprs.{Row, BoundExpr, binary, unary}
use query_engine.Exprs.Eval.{eval, apply_binary, apply_unary}
use query_engine.Optimizer.NullRejection.{
  NullColumnSource, supplies_null, evaluate_with_nulls, is_null_rejecting, binary_result,
  and_results,
}

-- If the first operand of an AND is found null and the second is not found false, then the negated
-- AND is reported to reject nulls, although it is true on every row on which the second operand is
-- false.
pub is_null_rejecting-not_and :
    {F : Type 0} (js : Js F) (upper : String → String) (source : NullColumnSource) (row : Row F)
    (a b : BoundExpr F)
    → js.truthy (boolean false) ≡ false
    → evaluate_with_nulls (supplies_null upper source) a ≡ null
    → is_false (evaluate_with_nulls (supplies_null upper source) b) ≡ false
    → eval js row b ≡ boolean false
    → (is_null_rejecting upper (unary not_op (binary and a b)) source ≡ true)
      × (eval js row (unary not_op (binary and a b)) ≡ boolean true)
unfolding is_null_rejecting evaluate_with_nulls binary_result and_results is_null is_false eval
    apply_binary apply_unary binary_value_op unary_value_op and_value
is_null_rejecting-not_and js upper source row a b t ha hb e = ground arith
