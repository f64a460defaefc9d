-- ===== src/Pruning/Order/Ranges.antt =====
-- How a value in a range compares to a literal, seen from the ends of the range.
use query_engine.Prelude.{
  ◌≡◌, sym, ◌∙◌, subst, Bool, true, false, not, some, arith, Bool-cases, inl, inr,
}
use mathlib.Core.Option.{some-injective}
use query_engine.Values.{Value, Js}
use query_engine.Values.Ops.{BinaryOp, eq, ne, lt, gt, le, ge, regular}
use query_engine.Pruning.Rules.{
  Comparison, RangeRule, range_rule, compare_comparable, is_nan, is_same, is_below, is_above,
  at_most_0, at_least_0,
}
use query_engine.Pruning.Order.{Ordered, Reads, compare-Reads, alike}

-- The test that a comparison operator makes on values that are not null.
abbrev pub comparison_test : {F : Type 0} → Js F → BinaryOp → Value F → Value F → Bool
comparison_test js eq a b = js.strict_equal a b
comparison_test js ne a b = not (js.strict_equal a b)
comparison_test js lt a b = js.less a b
comparison_test js gt a b = js.less b a
comparison_test js le a b = js.less_equal a b
comparison_test js ge a b = js.less_equal b a
comparison_test js _ a b = false

-- `lo ≤ x ≤ hi`, none of them NaN
pub record InRange {F : Type 0} (js : Js F) (lo hi x : Value F) : Type 0 where
  pub above_low : at_most_0 (compare_comparable js lo x) ≡ true
  pub below_high : at_least_0 (compare_comparable js hi x) ≡ true
  pub regular_low : regular js lo ≡ true
  pub regular_high : regular js hi ≡ true
  pub regular_value : regular js x ≡ true

alike_trans :
    {F : Type 0} (a b c : Value F) → alike a b ≡ true → alike a c ≡ true → alike b c ≡ true
unfolding alike
alike_trans a b c p q = ground arith

pub alike_sym : {F : Type 0} (a b : Value F) → alike a b ≡ true → alike b a ≡ true
unfolding alike
alike_sym a b p = ground arith

module _ {F : Type 0} {js : Js F} (o : Ordered js) (lo hi x y : Value F)
    (in_range : InRange js lo hi x) (known_low : is_nan (compare_comparable js lo y) ≡ false)
    (known_high : is_nan (compare_comparable js hi y) ≡ false)
    (regular_y : regular js y ≡ true) where
  not_nan_of_at_most :
      (c : Comparison) → at_most_0 c ≡ true → (is_nan c ≡ false) × (is_above c ≡ false)
  unfolding at_most_0 is_nan is_above
  not_nan_of_at_most c h = ground arith

  not_nan_of_at_least :
      (c : Comparison) → at_least_0 c ≡ true → (is_nan c ≡ false) × (is_below c ≡ false)
  unfolding at_least_0 is_nan is_below
  not_nan_of_at_least c h = ground arith

  pub lo_x : Reads o lo x
  lo_x = compare-Reads o lo x (not_nan_of_at_most _ in_range.above_low).0

  pub hi_x : Reads o hi x
  hi_x = compare-Reads o hi x (not_nan_of_at_least _ in_range.below_high).0

  pub lo_y : Reads o lo y
  lo_y = compare-Reads o lo y known_low

  pub hi_y : Reads o hi y
  hi_y = compare-Reads o hi y known_high

  pub x_y-alike : alike x y ≡ true
  x_y-alike = alike_trans lo x y lo_x.kinds lo_y.kinds

  pub not-x-before-low : js.less x lo ≡ false
  not-x-before-low = lo_x.after ∙ (not_nan_of_at_most _ in_range.above_low).1

  pub not-high-before-x : js.less hi x ≡ false
  not-high-before-x = hi_x.before ∙ (not_nan_of_at_least _ in_range.below_high).1

  y_x-alike : alike y x ≡ true
  y_x-alike = alike_sym x y x_y-alike

  pub same_low : js.less lo x ≡ false → js.strict_equal lo x ≡ true
  same_low p =
      o.less_total lo x lo_x.kinds in_range.regular_low in_range.regular_value p not-x-before-low

  same_high : js.less x hi ≡ false → js.strict_equal hi x ≡ true
  same_high p =
      o.less_total hi x hi_x.kinds in_range.regular_high in_range.regular_value not-high-before-x p

  low_first : js.less x y ≡ true → js.less lo y ≡ true
  low_first h = elim (Bool-cases (js.less lo x)) [
    | inl p ↦ o.less_trans lo x y lo_x.kinds x_y-alike p h
    | inr p ↦ (o.same_less lo x y lo_x.kinds lo_y.kinds (same_low p)).0 ∙ h
  ]

  low_last : js.less y lo ≡ true → js.less y x ≡ true
  low_last h = elim (Bool-cases (js.less lo x)) [
    | inl p ↦ o.less_trans y lo x (alike_sym lo y lo_y.kinds) lo_x.kinds h p
    | inr p ↦ sym (o.same_less lo x y lo_x.kinds lo_y.kinds (same_low p)).1 ∙ h
  ]

  high_first : js.less y x ≡ true → js.less y hi ≡ true
  high_first h = elim (Bool-cases (js.less x hi)) [
    | inl p ↦ o.less_trans y x hi y_x-alike (alike_sym hi x hi_x.kinds) h p
    | inr p ↦ (o.same_less hi x y hi_x.kinds hi_y.kinds (same_high p)).1 ∙ h
  ]

  high_last : js.less hi y ≡ true → js.less x y ≡ true
  high_last h = elim (Bool-cases (js.less x hi)) [
    | inl p ↦ o.less_trans x hi y (alike_sym hi x hi_x.kinds) hi_y.kinds p h
    | inr p ↦ sym (o.same_less hi x y hi_x.kinds hi_y.kinds (same_high p)).0 ∙ h
  ]

  same-sides : js.strict_equal x y ≡ true → (js.less x y ≡ false) × (js.less y x ≡ false)
  same-sides h =
      let x_x = alike_trans y x x y_x-alike y_x-alike in
      let sides = o.same_less x y x x_y-alike x_x h in
      (sym sides.1 ∙ o.less_irrefl x, sym sides.0 ∙ o.less_irrefl x)

  pub sides-same : js.less x y ≡ false → js.less y x ≡ false → js.strict_equal x y ≡ true
  sides-same p q = o.less_total x y x_y-alike in_range.regular_value regular_y p q

  -- What the test of an operator answers for `x` is among what its rule allows.
  pub record RuleHolds (rule : RangeRule) (t : Bool) : Type 0 where
    pub holds_true :
        t ≡ true
        → rule.possibly_true (compare_comparable js lo y) (compare_comparable js hi y) ≡ true
    pub holds_false :
        t ≡ false
        → rule.possibly_false (compare_comparable js lo y) (compare_comparable js hi y) ≡ true

  pub range_rule-holds :
      (op : BinaryOp) (rule : RangeRule)
      → range_rule op ≡ some rule
      → RuleHolds rule (comparison_test js op x y)
  unfolding range_rule at_most_0 at_least_0 is_below is_above is_same is_nan
  range_rule-holds eq rule e =
      subst (λ r. RuleHolds r (comparison_test js eq x y)) (some-injective _ _ e)
        (record {
          holds_true = λ h. ground (
            arith, lo_y.before, lo_y.after, hi_y.before, hi_y.after, low_first, low_last,
            high_first, high_last, same-sides, sides-same,
          );
          holds_false = λ h. ground (
            arith, lo_y.before, lo_y.after, hi_y.before, hi_y.after, low_first, low_last,
            high_first, high_last, same-sides, sides-same,
          );
        })
  range_rule-holds ne rule e =
      subst (λ r. RuleHolds r (comparison_test js ne x y)) (some-injective _ _ e)
        (record {
          holds_true = λ h. ground (
            arith, lo_y.before, lo_y.after, hi_y.before, hi_y.after, low_first, low_last,
            high_first, high_last, same-sides, sides-same,
          );
          holds_false = λ h. ground (
            arith, lo_y.before, lo_y.after, hi_y.before, hi_y.after, low_first, low_last,
            high_first, high_last, same-sides, sides-same,
          );
        })
  range_rule-holds lt rule e =
      subst (λ r. RuleHolds r (comparison_test js lt x y)) (some-injective _ _ e)
        (record {
          holds_true = λ h.
              ground
                (arith, lo_y.before, lo_y.after, hi_y.before, hi_y.after, low_first, high_last);
          holds_false = λ h.
              ground
                (arith, lo_y.before, lo_y.after, hi_y.before, hi_y.after, low_first, high_last);
        })
  range_rule-holds gt rule e =
      subst (λ r. RuleHolds r (comparison_test js gt x y)) (some-injective _ _ e)
        (record {
          holds_true = λ h.
              ground
                (arith, lo_y.before, lo_y.after, hi_y.before, hi_y.after, high_first, low_last);
          holds_false = λ h.
              ground
                (arith, lo_y.before, lo_y.after, hi_y.before, hi_y.after, high_first, low_last);
        })
  range_rule-holds le rule e =
      subst (λ r. RuleHolds r (comparison_test js le x y)) (some-injective _ _ e)
        (record {
          holds_true = λ h. ground (
            arith,
            lo_y.before,
            lo_y.after,
            hi_y.before,
            hi_y.after,
            low_last,
            high_first,
            o.less_equal_lem x y x_y-alike in_range.regular_value regular_y,
          );
          holds_false = λ h. ground (
            arith,
            lo_y.before,
            lo_y.after,
            hi_y.before,
            hi_y.after,
            low_last,
            high_first,
            o.less_equal_lem x y x_y-alike in_range.regular_value regular_y,
          );
        })
  range_rule-holds ge rule e =
      subst (λ r. RuleHolds r (comparison_test js ge x y)) (some-injective _ _ e)
        (record {
          holds_true = λ h. ground (
            arith,
            lo_y.before,
            lo_y.after,
            hi_y.before,
            hi_y.after,
            low_first,
            high_last,
            o.less_equal_lem y x y_x-alike regular_y in_range.regular_value,
          );
          holds_false = λ h. ground (
            arith,
            lo_y.before,
            lo_y.after,
            hi_y.before,
            hi_y.after,
            low_first,
            high_last,
            o.less_equal_lem y x y_x-alike regular_y in_range.regular_value,
          );
        })
  range_rule-holds _ rule e = cc
