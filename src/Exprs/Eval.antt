-- ===== src/Exprs/Eval.antt =====
-- src/execution/expression-eval.ts: what a compiled expression computes on one row. The column
-- mapping holds no materialised expression, and a `computed` node brings its own evaluator.
use query_engine.Prelude.{
  Bool, true, false, not, ◌&&◌, ◌||◌, Option, none, some, List, [], ◌∷◌, if◌then◌else◌,
}
use query_engine.Values.{Value, Js, null, boolean, is_null}
use query_engine.Values.Ops.{binary_value_op, unary_value_op, to_num, same_value_zero}
use query_engine.Exprs.{
  Row, BoundExpr, BoundExprs, column_ref, literal, binary, unary, between, in_list, is_null_test,
  computed, nil, cons,
}

-- `negated ? (res === null ? null : !res) : res`
unfoldable pub negate_if : {F : Type 0} → Bool → Option Bool → Value F
negate_if negated none = null
negate_if true (some b) = boolean (not b)
negate_if false (some b) = boolean b

-- `bound == null ? null : test`
unfoldable pub bound_test : {F : Type 0} → Value F → Bool → Option Bool
unfolding is_null
bound_test bound test = if is_null bound then none else some test

unfoldable pub both_bounds : Option Bool → Option Bool → Option Bool
both_bounds (some false) hi = some false
both_bounds (some true) hi = hi
both_bounds none (some false) = some false
both_bounds none (some true) = none
both_bounds none none = none

unfoldable pub has_null : {F : Type 0} → List (Value F) → Bool
unfolding is_null
has_null [] = false
has_null (x ∷ xs) = is_null x || has_null xs

-- found: true; not found: null if some item was null, else false
unfoldable pub membership : Bool → Bool → Option Bool
membership true any_null = some true
membership false true = none
membership false false = some false

unfoldable pub all_literals : {F : Type 0} → BoundExprs F → Bool
all_literals nil = true
all_literals (cons (literal v) es) = all_literals es
all_literals (cons e es) = false

unfoldable pub apply_binary :
    {F : Type 0} → Option (Value F → Value F → Value F) → Value F → Value F → Value F
apply_binary none l r = null
apply_binary (some op) l r = op l r

-- An unknown unary operator leaves its operand.
unfoldable pub apply_unary : {F : Type 0} → Option (Value F → Value F) → Value F → Value F
apply_unary none v = v
apply_unary (some op) v = op v

unfoldable pub is_null_value : {F : Type 0} → Bool → Value F → Value F
unfolding is_null
is_null_value negated v = boolean (if negated then not (is_null v) else is_null v)

module _ {F : Type 0} (js : Js F) where
  -- BETWEEN compares the raw values, without `toNum`.
  unfoldable pub between_value : Bool → Value F → Value F → Value F → Value F
  unfolding is_null bound_test both_bounds negate_if
  between_value negated v lo hi =
      if is_null v
      then null
      else negate_if negated
          (both_bounds (bound_test lo (js.less_equal lo v)) (bound_test hi (js.less_equal v hi)))

  -- `values.has(normalizeComparable(v))`, where the set leaves the null items out
  unfoldable pub set_has : Value F → List (Value F) → Bool
  unfolding is_null to_num same_value_zero
  set_has v [] = false
  set_has v (x ∷ xs) =
      (not (is_null x) && same_value_zero js (to_num js x) (to_num js v)) || set_has v xs

  -- The loop over items that are not all literals compares by `==`.
  unfoldable pub loose_has : Value F → List (Value F) → Bool
  unfolding is_null
  loose_has v [] = false
  loose_has v (x ∷ xs) = (not (is_null x) && js.loose_equal x v) || loose_has v xs

  unfoldable pub in_list_value : Bool → Bool → Value F → List (Value F) → Value F
  unfolding is_null set_has has_null loose_has membership negate_if
  in_list_value literals negated v items =
      if is_null v
      then null
      else negate_if negated
          (membership (if literals then set_has v items else loose_has v items) (has_null items))

unfoldable mutual
  unfolding apply_binary apply_unary binary_value_op unary_value_op between_value in_list_value
      is_null_value all_literals

  pub eval : {F : Type 0} → Js F → Row F → BoundExpr F → Value F
  eval js row (column_ref r) = row r
  eval js row (literal v) = v
  eval js row (binary op l r) = apply_binary (binary_value_op js op) (eval js row l) (eval js row r)
  eval js row (unary op e) = apply_unary (unary_value_op js op) (eval js row e)
  eval js row (between negated e lo hi) =
      between_value js negated (eval js row e) (eval js row lo) (eval js row hi)
  eval js row (in_list negated e items) =
      in_list_value js (all_literals items) negated (eval js row e) (eval_items js row items)
  eval js row (is_null_test negated e) = is_null_value negated (eval js row e)
  eval js row (computed f) = f row

  pub eval_items : {F : Type 0} → Js F → Row F → BoundExprs F → List (Value F)
  eval_items js row nil = []
  eval_items js row (cons e es) = eval js row e ∷ eval_items js row es
