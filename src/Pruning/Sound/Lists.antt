-- ===== src/Pruning/Sound/Lists.antt =====
-- A column IN a list of literals, against the column's zone.
use query_engine.Prelude.{
  ◌≡◌, refl, sym, subst, ap, Bool, true, false, Option, none, some, List, ◌∷◌, All, arith,
  Bool-cases, Option-cases, inl, inr,
}
use query_engine.Values.{Value, Js, is_null, is_true, is_false}
use query_engine.Values.Ops.{to_num, regular}
use query_engine.Exprs.{Row, BoundExprs, literal, nil, cons}
use query_engine.Exprs.Eval.{
  eval, eval_items, all_literals, has_null, set_has, membership, negate_if, in_list_value,
}
use query_engine.Pruning.{ValueRange, ColumnZoneMap}
use query_engine.Pruning.Rules.{compare_comparable, is_same}
use query_engine.Pruning.Compile.{
  comparable_values, scan_values, in_list_truth, in_list_range, in_list_zone, literal_values,
  null_only_truth,
}
use query_engine.Pruning.Truth.{kleene_not}
use query_engine.Pruning.Order.{Ordered}
use query_engine.Pruning.Order.Ranges.{InRange}
use query_engine.Pruning.Sound.Logic.{Covers, Covers-any}
use query_engine.Pruning.Sound.Column.{InZone, null-Covers}
use query_engine.Pruning.Sound.Scan.{set_has-comparable, comparable_values-regular, scan_values-lem}

module _ {F : Type 0} (js : Js F) where
  pub eval_items-literals :
      (row : Row F) (items : BoundExprs F)
      → all_literals items ≡ true
      → eval_items js row items ≡ literal_values items
  unfolding eval literal_values all_literals
  eval_items-literals row nil h = refl
  eval_items-literals row (cons (literal v) es) h = ap (λ r. v ∷ r) (eval_items-literals row es h)
  eval_items-literals row (cons _ es) h = cc

module _ {F : Type 0} {js : Js F} (o : Ordered js) where
  found-Covers :
      (negated found nul m c has_nulls : Bool)
      → (found ≡ true → m ≡ true)
      → (c ≡ true → found ≡ true)
      → Covers {F = F}
          (in_list_truth js negated nul has_nulls (some (m, c)))
          (negate_if negated (membership found nul))
  unfolding in_list_truth kleene_not negate_if membership is_true is_false is_null
  found-Covers negated found nul m c has_nulls p q = record {
    on_true = λ h. ground arith;
    on_false = λ h. ground arith;
    on_null = λ h. ground arith;
    on_other = λ h. ground arith;
  }

  null-in_list :
      (negated nul has_nulls : Bool) (found : Option (Bool × Bool))
      → has_nulls ≡ true
      → (in_list_truth js negated nul has_nulls found).may_unknown ≡ true
  unfolding in_list_truth kleene_not
  null-in_list negated nul has_nulls none h = refl
  null-in_list negated nul has_nulls (some (m, c)) h = ground arith

  may_unknown-in_list_range :
      (negated nul : Bool) (values : List (Value F)) (z : ColumnZoneMap F)
      (range : Option (ValueRange F))
      → z.has_nulls ≡ true
      → (in_list_range js negated nul values z range).may_unknown ≡ true
  unfolding in_list_range null_only_truth kleene_not
  may_unknown-in_list_range negated nul values z none h = ground arith
  may_unknown-in_list_range negated nul values z (some r) h = null-in_list negated nul _ _ h

  in_list_range-Covers :
      (negated : Bool) (items : List (Value F)) (v : Value F) (z : ColumnZoneMap F)
      (r : ValueRange F)
      → All (λ x. regular js (to_num js x) ≡ true) items
      → InRange js (to_num js r.min) (to_num js r.max) (to_num js v)
      → Covers {F = F}
          (in_list_range js negated (has_null items) (comparable_values js items) z (some r))
          (negate_if negated (membership (set_has js v items) (has_null items)))
  unfolding in_list_range
  in_list_range-Covers negated items v z r g in_range =
      let lo = to_num js r.min in
      let hi = to_num js r.max in
      elim (Option-cases (
        scan_values js lo hi (is_same (compare_comparable js lo hi)) false false
          (comparable_values js items))) [
            | inl e ↦ rw (e, in_list_truth) (Covers-any _)
            | inr ((m, c), e) ↦
                let k =
                  scan_values-lem o lo hi (to_num js v) in_range false false
                    (comparable_values js items) m c (comparable_values-regular js items g) e in
                rw (e, set_has-comparable js v items g) (found-Covers negated _ _ m c _ k.0 k.1)
          ]

  pub in_list_zone-Covers :
      (negated : Bool) (items : List (Value F)) (v : Value F) (z : ColumnZoneMap F)
      → All (λ x. regular js (to_num js x) ≡ true) items
      → InZone js z v
      → Covers
          (in_list_zone js negated (has_null items) (comparable_values js items) z)
          (in_list_value js true negated v items)
  unfolding in_list_zone in_list_value
  in_list_zone-Covers negated items v z g inz = elim (Bool-cases (is_null v)) [
    | inl p ↦ rw p (null-Covers o _ (may_unknown-in_list_range negated _ _ z z.range (inz.nulls p)))
    | inr p ↦
        let (r, known, in_range) = inz.values p in
        rw p (
          subst
            (λ range.
              Covers {F = F}
                (in_list_range js negated (has_null items) (comparable_values js items) z range)
                (negate_if negated (membership (set_has js v items) (has_null items))))
            (sym known) (in_list_range-Covers negated items v z r g in_range))
  ]
