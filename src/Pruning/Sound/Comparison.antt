-- ===== src/Pruning/Sound/Comparison.antt =====
-- `compileComparison` of src/execution/zone-map-pruner.ts against the zone of its column.
use query_engine.Prelude.{ℕ, ◌≡◌, refl, true, All, Option, none, some, Bool-cases, inl, inr}
use query_engine.Values.{Value, Js, null, is_null}
use query_engine.Values.Ops.{BinaryOp, binary_value_op, to_num, regular}
use query_engine.Exprs.{
  Row, ColumnRef, BoundExpr, column_ref, literal, binary, unary, between, in_list,
}
use query_engine.Exprs.Eval.{apply_binary, eval}
use query_engine.Pruning.{ChunkZoneMap}
use query_engine.Pruning.Rules.{RangeRule, range_rule, flipped_op}
use query_engine.Pruning.Compile.{
  ColumnResolver, ZoneEvaluator, run, compare_zone, compare_evaluator, comparison_of,
  compile_comparison, column_index_of, literal_value_of, literal_values, usable,
}
use query_engine.Pruning.Order.{Ordered}
use query_engine.Pruning.Sound.Logic.{Covers, Covers-any}
use query_engine.Pruning.Sound.Column.{
  at_column-Covers, RowInZone, compare_zone-Covers, comparison-flip,
}

-- No literal of the expression is NaN.
abbrev pub NoNan : {F : Type 0} → Js F → BoundExpr F → Type 0
NoNan js (literal v) = regular js (to_num js v) ≡ true
NoNan js (binary op l r) = NoNan js l × NoNan js r
NoNan js (unary op e) = NoNan js e
NoNan js (between n e lo hi) = NoNan js e × NoNan js lo × NoNan js hi
NoNan js (in_list n e items) = All (λ v. regular js (to_num js v) ≡ true) (literal_values items)
NoNan js _ = Unit

module _ {F : Type 0} {js : Js F} (o : Ordered js) where
  module _ (resolve : ColumnResolver) (z : ChunkZoneMap F) (row : Row F)
      (in_zone : RowInZone js resolve z row) where
    comparison_at-Covers :
        (op : BinaryOp) (ref : ColumnRef) (c : Value F) (index : Option ℕ)
        (rule? : Option RangeRule)
        → regular js (to_num js c) ≡ true
        → resolve ref ≡ index
        → range_rule op ≡ rule?
        → Covers
            (run (comparison_of js index c rule?) z)
            (apply_binary (binary_value_op js op) (row ref) c)
    unfolding comparison_of compare_evaluator run
    comparison_at-Covers op ref c (some i) (some rule) m resolved e =
        elim (Bool-cases (is_null c)) [
          | inl n ↦ rw n (Covers-any _)
          | inr n ↦ rw n (
              at_column-Covers o (compare_zone js (to_num js c) rule) i z _ λ k at.
                compare_zone-Covers o op rule e (row ref) c k n m (in_zone ref i k resolved at))
        ]
    comparison_at-Covers op ref c none rule? m resolved e = Covers-any _
    comparison_at-Covers op ref c (some i) none m resolved e = Covers-any _

    no_literal :
        (index : Option ℕ) (rule? : Option RangeRule) → comparison_of js index null rule? ≡ none
    unfolding comparison_of is_null
    no_literal (some i) (some rule) = refl
    no_literal none rule? = refl
    no_literal (some i) none = refl

    no_column : (c : Value F) (rule? : Option RangeRule) → comparison_of js none c rule? ≡ none
    unfolding comparison_of
    no_column c rule? = refl

    no_rule : (index : Option ℕ) (c : Value F) → comparison_of js index c none ≡ none
    unfolding comparison_of
    no_rule (some i) c = refl
    no_rule none c = refl

    none-Covers : (e : ZoneEvaluator F) (v : Value F) → e ≡ none → Covers (run e z) v
    unfolding run
    none-Covers e v h = rw h (Covers-any v)

    flipped_at-Covers :
        (op : BinaryOp) (ref : ColumnRef) (c : Value F) (rule? : Option RangeRule)
        → regular js (to_num js c) ≡ true
        → range_rule (flipped_op op) ≡ rule?
        → Covers
            (run (comparison_of js (resolve ref) c rule?) z)
            (apply_binary (binary_value_op js op) c (row ref))
    flipped_at-Covers op ref c (some rule) m e =
        rw (comparison-flip o op rule e (row ref) c)
          (comparison_at-Covers (flipped_op op) ref c (resolve ref) (some rule) m refl e)
    flipped_at-Covers op ref c none m e = none-Covers _ _ (no_rule (resolve ref) c)

    column_first :
        (op : BinaryOp) (l r : BoundExpr F)
        → NoNan js l
        → NoNan js r
        → Covers
            (run
              (comparison_of js (column_index_of resolve l) (literal_value_of r) (range_rule op))
              z)
            (apply_binary (binary_value_op js op) (eval js row l) (eval js row r))
    unfolding column_index_of literal_value_of eval
    column_first op (column_ref ref) (literal c) p q =
        comparison_at-Covers op ref c (resolve ref) (range_rule op) q refl refl
    column_first op (column_ref ref) _ p q =
        none-Covers _ _ (no_literal (resolve ref) (range_rule op))
    column_first op _ r p q = none-Covers _ _ (no_column _ (range_rule op))

    column_last :
        (op : BinaryOp) (l r : BoundExpr F)
        → NoNan js l
        → NoNan js r
        → Covers
            (run
              (comparison_of js
                (column_index_of resolve r)
                (literal_value_of l)
                (range_rule (flipped_op op)))
              z)
            (apply_binary (binary_value_op js op) (eval js row l) (eval js row r))
    unfolding column_index_of literal_value_of eval
    column_last op (literal c) (column_ref ref) p q =
        flipped_at-Covers op ref c (range_rule (flipped_op op)) p refl
    column_last op _ (column_ref ref) p q =
        none-Covers _ _ (no_literal (resolve ref) (range_rule (flipped_op op)))
    column_last op l _ p q = none-Covers _ _ (no_column _ (range_rule (flipped_op op)))

    pub compile_comparison-Covers :
        (op : BinaryOp) (l r : BoundExpr F)
        → NoNan js l
        → NoNan js r
        → Covers
            (run (compile_comparison js resolve op l r) z)
            (apply_binary (binary_value_op js op) (eval js row l) (eval js row r))
    unfolding compile_comparison
    compile_comparison-Covers op l r p q =
        elim (Bool-cases (usable (column_index_of resolve l) (literal_value_of r))) [
          | inl u ↦ rw u (column_first op l r p q)
          | inr u ↦ rw u (column_last op l r p q)
        ]
