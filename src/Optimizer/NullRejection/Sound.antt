-- ===== src/Optimizer/NullRejection/Sound.antt =====
-- The answers of src/optimizer/passes/null-rejection.ts against the evaluator.
use query_engine.Prelude.{String, ◌≡◌, ◌⊎◌, refl, Bool, true, false, ◌||◌, arith, ◌∙◌, sym}
use query_engine.Values.{Value, Js, null, boolean, is_null, is_true, is_false}
use query_engine.Values.Ops.{
  BinaryOp, UnaryOp, and, or, div, cat, unknown_op, neg, not_op, other_op, binary_value_op,
  unary_value_op, lifted, comparison, arithmetic, div_value, cat_value, and_value, or_value,
}
use query_engine.Exprs.{
  Row, ColumnRef, BoundExpr, BoundExprs, column_ref, literal, binary, unary, between, in_list,
  is_null_test, computed,
}
use query_engine.Exprs.Eval.{eval, apply_binary, apply_unary, is_null_value}
use query_engine.Optimizer.NullRejection.{
  NullColumnPredicate, NullColumnSource, supplies_null, evaluate_with_nulls, is_null_rejecting,
  is_unknown, and_results, or_results, strict_results, binary_result, unary_result, is_null_result,
}

unfoldable pub is_logical : BinaryOp → Bool
is_logical and = true
is_logical or = true
is_logical _ = false

-- No AND or OR below an operator of another kind.
pub data IsScalar {F : Type 0} : BoundExpr F → Type 0 where
  column : {r : ColumnRef} → IsScalar (column_ref r)
  constant : {v : Value F} → IsScalar (literal v)
  operation :
      {op : BinaryOp} {l r : BoundExpr F}
      → is_logical op ≡ false
      → IsScalar l
      → IsScalar r
      → IsScalar (binary op l r)
  prefix : {op : UnaryOp} {e : BoundExpr F} → IsScalar e → IsScalar (unary op e)
  null_test : {n : Bool} {e : BoundExpr F} → IsScalar e → IsScalar (is_null_test n e)
  range : {n : Bool} {e lo hi : BoundExpr F} → IsScalar (between n e lo hi)
  member : {n : Bool} {e : BoundExpr F} {es : BoundExprs F} → IsScalar (in_list n e es)
  opaque : {f : Row F → Value F} → IsScalar (computed f)

-- ANDs and ORs of such predicates.
pub data IsCondition {F : Type 0} : BoundExpr F → Type 0 where
  scalar : {e : BoundExpr F} → IsScalar e → IsCondition e
  conjunction : {l r : BoundExpr F} → IsCondition l → IsCondition r → IsCondition (binary and l r)
  disjunction : {l r : BoundExpr F} → IsCondition l → IsCondition r → IsCondition (binary or l r)

-- Every column that the predicate names is null in the row.
abbrev pub NullSupplied : {F : Type 0} → NullColumnPredicate → Row F → Type 0
NullSupplied null_refs row = (r : ColumnRef) → null_refs r ≡ true → row r ≡ null

-- What the result of a condition says of its value on such a row.
record Describes {F : Type 0} (r v : Value F) : Type 0 where
  rejects : (is_null r || is_false r) ≡ true → (is_null v || is_false v) ≡ true
  not_true : is_unknown r ≡ false → is_true r ≡ false → is_true v ≡ false

eq_null : {F : Type 0} (v : Value F) → is_null v ≡ true → v ≡ null
unfolding is_null
eq_null v h = ground arith

module _ {F : Type 0} (js : Js F) where
  -- An operator other than AND and OR gives null as soon as an operand is null.
  binary-strict :
      (op : BinaryOp) (l r : Value F)
      → is_logical op ≡ false
      → (is_null l || is_null r) ≡ true
      → apply_binary (binary_value_op js op) l r ≡ null
  unfolding is_logical apply_binary binary_value_op comparison arithmetic lifted div_value cat_value
      is_null
  binary-strict and l r p h = cc
  binary-strict or l r p h = cc
  binary-strict unknown_op l r p h = refl
  binary-strict div l r p h = rw h
  binary-strict cat l r p h = rw h
  binary-strict _ l r p h = rw h

  unary-strict : (op : UnaryOp) → apply_unary (unary_value_op js op) null ≡ null
  unfolding apply_unary unary_value_op is_null
  unary-strict neg = refl
  unary-strict not_op = refl
  unary-strict other_op = refl

  strict_results-exact :
      (op : BinaryOp) (l r v w : Value F)
      → is_logical op ≡ false
      → (is_unknown l ≡ false → v ≡ l)
      → (is_unknown r ≡ false → w ≡ r)
      → is_unknown (strict_results l r) ≡ false
      → apply_binary (binary_value_op js op) v w ≡ strict_results l r
  unfolding strict_results is_unknown is_null
  strict_results-exact op l r v w p hl hr u = ground (arith, binary-strict op v w)

  binary_result-strict :
      (op : BinaryOp) (l r : Value F)
      → is_logical op ≡ false
      → binary_result op l r ≡ strict_results l r
  unfolding binary_result is_logical
  binary_result-strict and l r p = cc
  binary_result-strict or l r p = cc
  binary_result-strict _ l r p = refl

  unary-exact :
      (op : UnaryOp) (r v : Value F)
      → (is_unknown r ≡ false → v ≡ r)
      → is_unknown (unary_result r) ≡ false
      → apply_unary (unary_value_op js op) v ≡ unary_result r
  unfolding is_unknown is_null unary_result
  unary-exact op r v h u = ground (arith, unary-strict op)

  null_test-exact :
      (n : Bool) (r v : Value F)
      → (is_unknown r ≡ false → v ≡ r)
      → is_unknown (is_null_result n r) ≡ false
      → is_null_value n v ≡ is_null_result n r
  unfolding is_unknown is_null is_null_value is_null_result
  null_test-exact n r v h u = ground arith

  module _ (null_refs : NullColumnPredicate) (row : Row F)
      (supplied : NullSupplied null_refs row) where
    -- A scalar predicate whose result is known evaluates to that result.
    IsScalar-exact :
        {e : BoundExpr F}
        → IsScalar e
        → is_unknown (evaluate_with_nulls null_refs e) ≡ false
        → eval js row e ≡ evaluate_with_nulls null_refs e
    unfolding eval evaluate_with_nulls is_unknown
    IsScalar-exact (column {r}) u = ground (arith, supplied r)
    IsScalar-exact constant u = refl
    IsScalar-exact (operation {op} {l} {r} p sl sr) u =
        let same =
          binary_result-strict op (evaluate_with_nulls null_refs l)
            (evaluate_with_nulls null_refs r) p in
        strict_results-exact op (evaluate_with_nulls null_refs l) (evaluate_with_nulls null_refs r)
          (eval js row l) (eval js row r) p (IsScalar-exact sl) (IsScalar-exact sr) (rw same at u)
        ∙ sym same
    IsScalar-exact (prefix {op} {e} s) u =
        unary-exact op (evaluate_with_nulls null_refs e) (eval js row e) (IsScalar-exact s) u
    IsScalar-exact (null_test {n} {e} s) u =
        null_test-exact n (evaluate_with_nulls null_refs e) (eval js row e) (IsScalar-exact s) u
    IsScalar-exact range u = cc
    IsScalar-exact member u = cc
    IsScalar-exact opaque u = cc

    and-Describes :
        (l r v w : Value F)
        → Describes l v
        → Describes r w
        → Describes (and_results l r) (and_value v w)
    unfolding and_results and_value is_unknown is_null is_true is_false
    and-Describes l r v w hl hr = record {
      rejects = λ h. ground arith;
      not_true = λ u t. ground arith;
    }

    or-Describes :
        (l r v w : Value F)
        → Describes l v
        → Describes r w
        → Describes (or_results l r) (or_value v w)
    unfolding or_results or_value is_unknown is_null is_true is_false
    or-Describes l r v w hl hr = record {
      rejects = λ h. ground arith;
      not_true = λ u t. ground arith;
    }

    exact-Describes : (r v : Value F) → (is_unknown r ≡ false → v ≡ r) → Describes r v
    unfolding is_unknown is_null is_true is_false
    exact-Describes r v h = record { rejects = λ k. ground arith; not_true = λ u t. ground arith }

    IsCondition-Describes :
        {e : BoundExpr F}
        → IsCondition e
        → Describes (evaluate_with_nulls null_refs e) (eval js row e)
    unfolding eval evaluate_with_nulls
    IsCondition-Describes (scalar s) = exact-Describes _ _ (IsScalar-exact s)
    IsCondition-Describes (conjunction cl cr) =
        and-Describes _ _ _ _ (IsCondition-Describes cl) (IsCondition-Describes cr)
    IsCondition-Describes (disjunction cl cr) =
        or-Describes _ _ _ _ (IsCondition-Describes cl) (IsCondition-Describes cr)

-- If the predicate is built by AND and OR from predicates with no AND or OR below another operator,
-- and every column that the source names is null in the row, then a predicate that is reported to
-- reject nulls evaluates to null or to false on the row.
pub is_null_rejecting_sound :
    {F : Type 0} (js : Js F) (upper : String → String) (source : NullColumnSource) (row : Row F)
    {e : BoundExpr F}
    → IsCondition e
    → NullSupplied (supplies_null upper source) row
    → is_null_rejecting upper e source ≡ true
    → (eval js row e ≡ null) ⊎ (eval js row e ≡ boolean false)
unfolding is_null_rejecting is_null is_false
is_null_rejecting_sound js upper source row {e} c h reject =
    let d = IsCondition-Describes js (supplies_null upper source) row h c in
    ground (arith, d.rejects)
