-- ===== src/Pruning/Sound/Chunk.antt =====
-- The compiled pruner of a whole predicate.
use query_engine.Prelude.{
  ℕ, ◌≡◌, refl, ap, Bool, true, false, not, ◌||◌, Option, none, some, arith, Bool-cases, inl, inr,
  ◌==◌,
}
use mathlib.Core.Option.{some-injective}
use query_engine.Values.{Value, Js, boolean, is_null, is_true, is_false}
use query_engine.Values.Ops.{
  le, ge, and, or, not_op, to_num, binary_value_op, unary_value_op, and_value, comparison, lifted,
}
use query_engine.Exprs.{
  Row, ColumnRef, BoundExpr, BoundExprs, column_ref, binary, unary, between, in_list, is_null_test,
}
use query_engine.Exprs.Eval.{
  eval, eval_items, all_literals, negate_if, in_list_value, between_value, is_null_value,
  apply_binary, apply_unary,
}
use query_engine.Pruning.{ColumnZoneMap, ChunkZoneMap}
use query_engine.Pruning.Compile.{
  ColumnResolver, ZoneEvaluator, run, combine, compile_zone_evaluator, compile_chunk_pruner,
  pruner_of, compile_between, compile_is_null, compile_in_list, compile_comparison, column_index_of,
  literal_values, is_null_zone, has_values,
}
use query_engine.Pruning.Truth.{kleene_and}
use query_engine.Pruning.Order.{Ordered}
use query_engine.Pruning.Sound.Logic.{
  Covers, Covers-any, run-combine_and, run-combine_or, run-negate,
}
use query_engine.Pruning.Sound.Column.{InZone, RowInZone, boolean-Covers, at_column-Covers}
use query_engine.Pruning.Sound.Comparison.{compile_comparison-Covers, NoNan}
use query_engine.Pruning.Sound.Lists.{in_list_zone-Covers, eval_items-literals}

-- No BETWEEN compares a bigint: BETWEEN tests the raw values, and the pruner the numbers that they
-- are converted to.
abbrev pub PlainBetween : {F : Type 0} → Js F → Row F → BoundExpr F → Type 0
PlainBetween js row (binary op l r) = PlainBetween js row l × PlainBetween js row r
PlainBetween js row (unary op e) = PlainBetween js row e
PlainBetween js row (between n e lo hi) =
    (to_num js (eval js row e) ≡ eval js row e)
    × (to_num js (eval js row lo) ≡ eval js row lo)
    × (to_num js (eval js row hi) ≡ eval js row hi)
PlainBetween js row _ = Unit

module _ {F : Type 0} {js : Js F} (o : Ordered js)
    (truthy : (b : Bool) → js.truthy (boolean b) ≡ b) where
  between-and :
      (v lo hi : Value F)
      → to_num js v ≡ v
      → to_num js lo ≡ lo
      → to_num js hi ≡ hi
      → between_value js false v lo hi
        ≡ and_value
            (apply_binary (binary_value_op js ge) v lo)
            (apply_binary (binary_value_op js le) v hi)
  unfolding between_value and_value apply_binary binary_value_op comparison lifted is_null is_false
  between-and v lo hi p q r = rw (p, q, r) (ground arith)

  between-not :
      (v lo hi : Value F)
      → between_value js true v lo hi
        ≡ apply_unary (unary_value_op js not_op) (between_value js false v lo hi)
  unfolding between_value apply_unary unary_value_op negate_if is_null
  between-not v lo hi = ground (arith, truthy true, truthy false)

  is_null_zone-Covers :
      (negated : Bool) (z : ColumnZoneMap F) (v : Value F)
      → InZone js z v
      → Covers (is_null_zone negated z) (is_null_value negated v)
  unfolding is_null_zone is_null_value has_values
  is_null_zone-Covers negated z v inz = elim (Bool-cases (is_null v)) [
    | inl p ↦
        boolean-Covers o _ _ (λ h. ground (arith, inz.nulls p)) (λ h. ground (arith, inz.nulls p))
    | inr p ↦
        let (r, known, _) = inz.values p in
        boolean-Covers o _ _ (λ h. ground (arith, known)) (λ h. ground (arith, known))
  ]

  module _ (resolve : ColumnResolver) (z : ChunkZoneMap F) (row : Row F)
      (in_zone : RowInZone js resolve z row) where
    inclusive_evaluator : (e lo hi : BoundExpr F) → ZoneEvaluator F
    inclusive_evaluator e lo hi =
        combine kleene_and (compile_comparison js resolve ge e lo)
          (compile_comparison js resolve le e hi)

    inclusive-Covers :
        (e lo hi : BoundExpr F)
        → NoNan js e
        → NoNan js lo
        → NoNan js hi
        → to_num js (eval js row e) ≡ eval js row e
        → to_num js (eval js row lo) ≡ eval js row lo
        → to_num js (eval js row hi) ≡ eval js row hi
        → Covers
            (run (inclusive_evaluator e lo hi) z)
            (between_value js false (eval js row e) (eval js row lo) (eval js row hi))
    unfolding inclusive_evaluator
    inclusive-Covers e lo hi f g h p q r =
        rw (between-and (eval js row e) (eval js row lo) (eval js row hi) p q r) (
          run-combine_and z (compile_comparison js resolve ge e lo)
            (compile_comparison js resolve le e hi) _ _
            (compile_comparison-Covers o resolve z row in_zone ge e lo f g)
            (compile_comparison-Covers o resolve z row in_zone le e hi f h))

    compile_between-Covers :
        (negated : Bool) (e lo hi : BoundExpr F)
        → PlainBetween js row (between negated e lo hi)
        → NoNan js (between negated e lo hi)
        → Covers
            (run (compile_between js resolve negated e lo hi) z)
            (between_value js negated (eval js row e) (eval js row lo) (eval js row hi))
    unfolding compile_between inclusive_evaluator
    compile_between-Covers true e lo hi (p, q, r) (f, g, h) =
        rw (between-not (eval js row e) (eval js row lo) (eval js row hi)) (
          run-negate z js (inclusive_evaluator e lo hi)
            (between_value js false (eval js row e) (eval js row lo) (eval js row hi)) truthy
            (inclusive-Covers e lo hi f g h p q r))
    compile_between-Covers false e lo hi (p, q, r) (f, g, h) = inclusive-Covers e lo hi f g h p q r

    is_null_at-Covers :
        (negated : Bool) (ref : ColumnRef) (index : Option ℕ)
        → resolve ref ≡ index
        → Covers (run (compile_is_null negated index) z) (is_null_value negated (row ref))
    unfolding compile_is_null run
    is_null_at-Covers negated ref none resolved = Covers-any _
    is_null_at-Covers negated ref (some i) resolved =
        at_column-Covers o (is_null_zone negated) i z _
          λ c at. is_null_zone-Covers negated c (row ref) (in_zone ref i c resolved at)

    compile_is_null-Covers :
        (negated : Bool) (e : BoundExpr F)
        → Covers
            (run (compile_is_null negated (column_index_of resolve e)) z)
            (is_null_value negated (eval js row e))
    unfolding column_index_of eval
    compile_is_null-Covers negated (column_ref ref) =
        is_null_at-Covers negated ref (resolve ref) refl
    compile_is_null-Covers negated _ = unfold compile_is_null run in Covers-any _

    in_list_at-Covers :
        (negated : Bool) (ref : ColumnRef) (items : BoundExprs F) (index : Option ℕ)
        → NoNan js (in_list negated (column_ref ref) items)
        → resolve ref ≡ index
        → Covers
            (run (compile_in_list js negated index (all_literals items) (literal_values items)) z)
            (in_list_value js (all_literals items) negated (row ref) (eval_items js row items))
    unfolding compile_in_list run
    in_list_at-Covers negated ref items none m resolved = Covers-any _
    in_list_at-Covers negated ref items (some i) m resolved =
        elim (Bool-cases (all_literals items)) [
          | inr n ↦ rw n (Covers-any _)
          | inl l ↦
              rw (l, eval_items-literals js row items l)
                (at_column-Covers o _ i z _ λ c at.
                  in_list_zone-Covers o negated (literal_values items) (row ref) c m
                    (in_zone ref i c resolved at))
        ]

    compile_in_list-Covers :
        (negated : Bool) (e : BoundExpr F) (items : BoundExprs F)
        → NoNan js (in_list negated e items)
        → Covers
            (run
              (compile_in_list js negated
                (column_index_of resolve e)
                (all_literals items)
                (literal_values items))
              z)
            (in_list_value js
              (all_literals items)
              negated
              (eval js row e)
              (eval_items js row items))
    unfolding column_index_of eval
    compile_in_list-Covers negated (column_ref ref) items m =
        in_list_at-Covers negated ref items (resolve ref) m refl
    compile_in_list-Covers negated _ items m = unfold compile_in_list run in Covers-any _

    compile_zone_evaluator-Covers :
        (e : BoundExpr F)
        → PlainBetween js row e
        → NoNan js e
        → Covers (run (compile_zone_evaluator js resolve e) z) (eval js row e)
    unfolding compile_zone_evaluator eval
    compile_zone_evaluator-Covers (binary and l r) p m =
        run-combine_and z (compile_zone_evaluator js resolve l)
          (compile_zone_evaluator js resolve r) (eval js row l) (eval js row r)
          (compile_zone_evaluator-Covers l p.0 m.0) (compile_zone_evaluator-Covers r p.1 m.1)
    compile_zone_evaluator-Covers (binary or l r) p m =
        run-combine_or z (compile_zone_evaluator js resolve l) (compile_zone_evaluator js resolve r)
          (eval js row l) (eval js row r) (compile_zone_evaluator-Covers l p.0 m.0)
          (compile_zone_evaluator-Covers r p.1 m.1)
    compile_zone_evaluator-Covers (binary op l r) p m =
        compile_comparison-Covers o resolve z row in_zone op l r m.0 m.1
    compile_zone_evaluator-Covers (unary not_op e) p m =
        run-negate z js (compile_zone_evaluator js resolve e) (eval js row e) truthy
          (compile_zone_evaluator-Covers e p m)
    compile_zone_evaluator-Covers (unary _ e) p m = Covers-any _
    compile_zone_evaluator-Covers (between negated e lo hi) p m =
        compile_between-Covers negated e lo hi p m
    compile_zone_evaluator-Covers (is_null_test negated e) p m = compile_is_null-Covers negated e
    compile_zone_evaluator-Covers (in_list negated e items) p m =
        compile_in_list-Covers negated e items m
    compile_zone_evaluator-Covers _ p m = Covers-any _

    pruner_of-Covers :
        (f : ZoneEvaluator F) (v : Value F) (can_skip : ChunkZoneMap F → Bool)
        → Covers (run f z) v
        → pruner_of f ≡ some can_skip
        → (z.row_count == 0) ≡ false
        → can_skip z ≡ true
        → is_true v ≡ false
    unfolding pruner_of run
    pruner_of-Covers none v can_skip c compiled rows skipped = cc
    pruner_of-Covers (some f) v can_skip c compiled rows skipped =
        let same : ((z.row_count == 0) || not (f z).may_true) ≡ can_skip z =
          ap (λ g. g z) (some-injective _ _ compiled) in
        ground (arith, c.on_true, same)

    -- A chunk that the pruner skips has no row on which the predicate is true.
    pub compile_chunk_pruner_sound :
        (e : BoundExpr F) (can_skip : ChunkZoneMap F → Bool)
        → PlainBetween js row e
        → NoNan js e
        → compile_chunk_pruner js resolve e ≡ some can_skip
        → (z.row_count == 0) ≡ false
        → can_skip z ≡ true
        → is_true (eval js row e) ≡ false
    unfolding compile_chunk_pruner
    compile_chunk_pruner_sound e can_skip plain numbers compiled rows skipped =
        pruner_of-Covers (compile_zone_evaluator js resolve e) (eval js row e) can_skip
          (compile_zone_evaluator-Covers e plain numbers) compiled rows skipped
