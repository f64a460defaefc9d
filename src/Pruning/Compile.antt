-- ===== src/Pruning/Compile.antt =====
-- src/execution/zone-map-pruner.ts: a predicate compiled to a test of a chunk's zone map. LIKE is
-- not modelled.
use query_engine.Prelude.{
  ℕ, Bool, true, false, not, ◌&&◌, ◌||◌, Option, none, some, List, [], ◌∷◌, if◌then◌else◌,
  get_elem?, ◌==◌,
}
use query_engine.Values.{Value, Js, null, is_null}
use query_engine.Values.Ops.{BinaryOp, le, ge, and, or, not_op, to_num}
use query_engine.Exprs.{
  ColumnRef, BoundExpr, BoundExprs, column_ref, literal, binary, unary, between, in_list,
  is_null_test, computed, nil, cons,
}
use query_engine.Exprs.Eval.{all_literals, has_null}
use query_engine.Pruning.{ValueRange, ColumnZoneMap, ChunkZoneMap}
use query_engine.Pruning.Rules.{
  RangeRule, range_rule, flipped_op, compare_comparable, is_nan, is_same, at_most_0, at_least_0,
}
use query_engine.Pruning.Truth.{TruthSet, truth_of, any_truth, kleene_not, kleene_and, kleene_or}

-- An unresolved column is `none`.
abbrev pub ColumnResolver : Type 0
ColumnResolver = ColumnRef → Option ℕ

-- `none` is the evaluator `anyTruth`, which the code tests for by identity.
abbrev pub ZoneEvaluator : Type 0 → Type 0
ZoneEvaluator F = Option (ChunkZoneMap F → TruthSet)

unfoldable pub run : {F : Type 0} → ZoneEvaluator F → ChunkZoneMap F → TruthSet
run none z = any_truth
run (some f) z = f z

unfoldable pub null_only_truth : {F : Type 0} → ColumnZoneMap F → TruthSet
null_only_truth z = truth_of false false z.has_nulls

-- The literal's value; null where the expression is no literal.
unfoldable pub literal_value_of : {F : Type 0} → BoundExpr F → Value F
literal_value_of (literal v) = v
literal_value_of _ = null

unfoldable pub column_index_of : {F : Type 0} → ColumnResolver → BoundExpr F → Option ℕ
column_index_of resolve (column_ref r) = resolve r
column_index_of resolve _ = none

unfoldable pub literal_values : {F : Type 0} → BoundExprs F → List (Value F)
unfolding literal_value_of
literal_values nil = []
literal_values (cons e es) = literal_value_of e ∷ literal_values es

-- `columnIndex === UNRESOLVED_COLUMN || literal === null`
unfoldable pub usable : {F : Type 0} → Option ℕ → Value F → Bool
unfolding is_null
usable none v = false
usable (some i) v = not (is_null v)

-- A missing column's zone gives any truth.
unfoldable pub zone_truth :
    {F : Type 0} → (ColumnZoneMap F → TruthSet) → Option (ColumnZoneMap F) → TruthSet
zone_truth f none = any_truth
zone_truth f (some c) = f c

unfoldable pub at_column :
    {F : Type 0} → (ColumnZoneMap F → TruthSet) → ℕ → ChunkZoneMap F → TruthSet
unfolding zone_truth
at_column f i z = zone_truth f (get_elem? z.columns i)

module _ {F : Type 0} (js : Js F) where
  -- `Number.isNaN(lo) || Number.isNaN(hi)`: the literal is of another type than the column
  unfoldable pub compare_range :
      Value F → RangeRule → ColumnZoneMap F → Option (ValueRange F) → TruthSet
  unfolding compare_comparable is_nan to_num null_only_truth
  compare_range c rule z none = null_only_truth z
  compare_range c rule z (some r) =
      let lo = compare_comparable js (to_num js r.min) c in
      let hi = compare_comparable js (to_num js r.max) c in
      if is_nan lo || is_nan hi
      then any_truth
      else truth_of (rule.possibly_true lo hi) (rule.possibly_false lo hi) z.has_nulls

  unfoldable pub compare_zone : Value F → RangeRule → ColumnZoneMap F → TruthSet
  unfolding compare_range
  compare_zone c rule z = compare_range c rule z z.range

  unfoldable pub compare_evaluator : ℕ → Value F → RangeRule → ChunkZoneMap F → TruthSet
  unfolding at_column compare_zone
  compare_evaluator i c rule = at_column (compare_zone c rule) i

  unfoldable pub comparison_of : Option ℕ → Value F → Option RangeRule → ZoneEvaluator F
  unfolding compare_evaluator is_null to_num
  comparison_of (some i) v (some rule) =
      if is_null v then none else some (compare_evaluator i (to_num js v) rule)
  comparison_of _ v _ = none

  unfoldable pub compile_comparison :
      ColumnResolver → BinaryOp → BoundExpr F → BoundExpr F → ZoneEvaluator F
  unfolding usable column_index_of literal_value_of comparison_of flipped_op range_rule
  compile_comparison resolve op l r =
      if usable (column_index_of resolve l) (literal_value_of r)
      then comparison_of (column_index_of resolve l) (literal_value_of r) (range_rule op)
      else comparison_of (column_index_of resolve r) (literal_value_of l)
          (range_rule (flipped_op op))

-- Both sides unknown stay unknown; else the sets are combined.
unfoldable pub combine :
    {F : Type 0}
    → (TruthSet → TruthSet → TruthSet)
    → ZoneEvaluator F
    → ZoneEvaluator F
    → ZoneEvaluator F
unfolding run
combine f none none = none
combine f (some a) r = some (λ z. f (a z) (run r z))
combine f none (some b) = some (λ z. f any_truth (b z))

unfoldable pub negate_evaluator : {F : Type 0} → ZoneEvaluator F → ZoneEvaluator F
unfolding kleene_not
negate_evaluator none = none
negate_evaluator (some f) = some (λ z. kleene_not (f z))

unfoldable pub has_values : {F : Type 0} → Option (ValueRange F) → Bool
has_values none = false
has_values (some r) = true

unfoldable pub is_null_zone : {F : Type 0} → Bool → ColumnZoneMap F → TruthSet
unfolding has_values
is_null_zone negated z =
    if negated
    then truth_of (has_values z.range) z.has_nulls false
    else truth_of z.has_nulls (has_values z.range) false

unfoldable pub compile_is_null : {F : Type 0} → Bool → Option ℕ → ZoneEvaluator F
unfolding at_column is_null_zone
compile_is_null negated none = none
compile_is_null negated (some i) = some (at_column (is_null_zone negated) i)

-- `canSkip`; `none` is the missing pruner.
unfoldable pub pruner_of : {F : Type 0} → ZoneEvaluator F → Option (ChunkZoneMap F → Bool)
pruner_of none = none
pruner_of (some f) = some (λ z. (z.row_count == 0) || not (f z).may_true)

module _ {F : Type 0} (js : Js F) where
  -- The literals that are not null, as comparables.
  unfoldable pub comparable_values : List (Value F) → List (Value F)
  unfolding is_null to_num
  comparable_values [] = []
  comparable_values (v ∷ vs) =
      let rest = comparable_values vs in if is_null v then rest else to_num js v ∷ rest

  -- The loop over the values: `matchesRange` and `coversRange`, or `none` at the first NaN.
  unfoldable pub scan_values :
      Value F → Value F → Bool → Bool → Bool → List (Value F) → Option (Bool × Bool)
  unfolding compare_comparable is_nan is_same at_most_0 at_least_0
  scan_values lo hi singleton matches covers [] = some (matches, covers)
  scan_values lo hi singleton matches covers (v ∷ vs) =
      let rest =
        scan_values lo hi singleton
          (matches
            || (at_most_0 (compare_comparable js lo v) && at_least_0 (compare_comparable js hi v)))
          (covers || (singleton && is_same (compare_comparable js lo v))) vs in
      if is_nan (compare_comparable js lo v) || is_nan (compare_comparable js hi v)
      then none
      else rest

  unfoldable pub in_list_truth : Bool → Bool → Bool → Option (Bool × Bool) → TruthSet
  unfolding kleene_not
  in_list_truth negated list_has_null has_nulls none = any_truth
  in_list_truth negated list_has_null has_nulls (some (matches, covers)) =
      let truth =
        truth_of matches (not list_has_null && not covers)
          (has_nulls || (list_has_null && not covers)) in
      if negated then kleene_not truth else truth

  unfoldable pub in_list_range :
      Bool → Bool → List (Value F) → ColumnZoneMap F → Option (ValueRange F) → TruthSet
  unfolding null_only_truth kleene_not compare_comparable is_same scan_values in_list_truth to_num
  in_list_range negated list_has_null values z none =
      if negated then kleene_not (null_only_truth z) else null_only_truth z
  in_list_range negated list_has_null values z (some r) =
      let lo = to_num js r.min in
      let hi = to_num js r.max in
      in_list_truth negated list_has_null z.has_nulls
        (scan_values lo hi (is_same (compare_comparable js lo hi)) false false values)

  unfoldable pub in_list_zone : Bool → Bool → List (Value F) → ColumnZoneMap F → TruthSet
  unfolding in_list_range
  in_list_zone negated list_has_null values z = in_list_range negated list_has_null values z z.range

  unfoldable pub compile_in_list : Bool → Option ℕ → Bool → List (Value F) → ZoneEvaluator F
  unfolding at_column in_list_zone comparable_values has_null
  compile_in_list negated none literals items = none
  compile_in_list negated (some i) literals items =
      if literals
      then some (at_column (in_list_zone negated (has_null items) (comparable_values items)) i)
      else none

  unfoldable pub compile_between :
      ColumnResolver → Bool → BoundExpr F → BoundExpr F → BoundExpr F → ZoneEvaluator F
  unfolding combine kleene_and negate_evaluator compile_comparison
  compile_between resolve negated e lo hi =
      let inclusive =
        combine kleene_and (compile_comparison js resolve ge e lo)
          (compile_comparison js resolve le e hi) in
      if negated then negate_evaluator inclusive else inclusive

  unfoldable pub compile_zone_evaluator : ColumnResolver → BoundExpr F → ZoneEvaluator F
  unfolding combine kleene_and kleene_or negate_evaluator compile_comparison compile_between
      compile_is_null compile_in_list column_index_of all_literals literal_values
  compile_zone_evaluator resolve (binary and l r) =
      combine kleene_and (compile_zone_evaluator resolve l) (compile_zone_evaluator resolve r)
  compile_zone_evaluator resolve (binary or l r) =
      combine kleene_or (compile_zone_evaluator resolve l) (compile_zone_evaluator resolve r)
  compile_zone_evaluator resolve (binary op l r) = compile_comparison js resolve op l r
  compile_zone_evaluator resolve (unary not_op e) =
      negate_evaluator (compile_zone_evaluator resolve e)
  compile_zone_evaluator resolve (unary _ e) = none
  compile_zone_evaluator resolve (between negated e lo hi) = compile_between resolve negated e lo hi
  compile_zone_evaluator resolve (is_null_test negated e) =
      compile_is_null negated (column_index_of resolve e)
  compile_zone_evaluator resolve (in_list negated e items) =
      compile_in_list negated (column_index_of resolve e) (all_literals items)
        (literal_values items)
  compile_zone_evaluator resolve (column_ref _) = none
  compile_zone_evaluator resolve (literal _) = none
  compile_zone_evaluator resolve (computed _) = none

  unfoldable pub compile_chunk_pruner :
      ColumnResolver → BoundExpr F → Option (ChunkZoneMap F → Bool)
  unfolding compile_zone_evaluator pruner_of
  compile_chunk_pruner resolve e = pruner_of (compile_zone_evaluator resolve e)
