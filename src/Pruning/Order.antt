-- ===== src/Pruning/Order.antt =====
-- The order on comparables, as the pruner reads it.
pub mod Ranges
use query_engine.Prelude.{◌≡◌, refl, ◌↔◌, Bool, true, false, not, ◌&&◌, arith, if◌then◌else◌}
use query_engine.Values.{Value, Js, null, number, bigint, text, boolean}
use query_engine.Values.Ops.{to_num, regular}
use query_engine.Pruning.Rules.{
  Comparison, below, same, above, nan, compare_comparable, compare_by_less, is_nan, is_same,
  is_below, is_above, at_most_0, at_least_0,
}

-- Two numbers, two strings or two Booleans.
unfoldable pub alike : {F : Type 0} → Value F → Value F → Bool
alike (number _) (number _) = true
alike (text _) (text _) = true
alike (boolean _) (boolean _) = true
alike _ _ = false

-- JavaScript's `<`, `<=` and `===`. The order is transitive among values of one kind only, and
-- total where neither value is NaN. Zero and minus zero are `===` and are ordered alike.
pub record Ordered {F : Type 0} (js : Js F) : Type 0 where
  pub less_irrefl : (a : Value F) → js.less a a ≡ false
  pub less_trans :
      (a b c : Value F)
      → alike a b ≡ true
      → alike b c ≡ true
      → js.less a b ≡ true
      → js.less b c ≡ true
      → js.less a c ≡ true
  pub less_total :
      (a b : Value F)
      → alike a b ≡ true
      → regular js a ≡ true
      → regular js b ≡ true
      → js.less a b ≡ false
      → js.less b a ≡ false
      → js.strict_equal a b ≡ true
  pub same_less :
      (a b c : Value F)
      → alike a b ≡ true
      → alike a c ≡ true
      → js.strict_equal a b ≡ true
      → (js.less a c ≡ js.less b c) × (js.less c a ≡ js.less c b)
  pub same_sym : (a b : Value F) → js.strict_equal a b ≡ js.strict_equal b a
  -- Equal bigints are converted to equal numbers.
  pub same_to_num :
      (a b : Value F)
      → js.strict_equal a b ≡ true
      → js.strict_equal (to_num js a) (to_num js b) ≡ true
  pub less_equal_lem :
      (a b : Value F)
      → alike a b ≡ true
      → regular js a ≡ true
      → regular js b ≡ true
      → js.less_equal a b ≡ not (js.less b a)
  pub less_boolean : (a b : Bool) → js.less (boolean a) (boolean b) ≡ (not a && b)

module _ {F : Type 0} {js : Js F} (o : Ordered js) where
  -- What a comparison that is not NaN says of the two values.
  pub record Reads (a b : Value F) : Type 0 where
    pub kinds : alike a b ≡ true
    pub before : js.less a b ≡ is_below (compare_comparable js a b)
    pub after : js.less b a ≡ is_above (compare_comparable js a b)

  by_less-before : (a b : Value F) → js.less a b ≡ is_below (compare_by_less js a b)
  unfolding compare_by_less is_below
  by_less-before a b = ground arith

  by_less-after :
      (a b : Value F)
      → alike a b ≡ true
      → alike b a ≡ true
      → js.less b a ≡ is_above (compare_by_less js a b)
  unfolding compare_by_less is_above
  by_less-after a b k l = ground (arith, o.less_trans a b a k l, o.less_irrefl a)

  pub compare-Reads : (a b : Value F) → is_nan (compare_comparable js a b) ≡ false → Reads a b
  unfolding compare_comparable is_nan is_below is_above alike
  compare-Reads (number a) (number b) h = record {
    kinds = refl;
    before = by_less-before _ _;
    after = by_less-after _ _ refl refl;
  }
  compare-Reads (text a) (text b) h = record {
    kinds = refl;
    before = by_less-before _ _;
    after = by_less-after _ _ refl refl;
  }
  compare-Reads (boolean true) (boolean true) h = record {
    kinds = refl;
    before = o.less_boolean _ _;
    after = o.less_boolean _ _;
  }
  compare-Reads (boolean true) (boolean false) h = record {
    kinds = refl;
    before = o.less_boolean _ _;
    after = o.less_boolean _ _;
  }
  compare-Reads (boolean false) (boolean true) h = record {
    kinds = refl;
    before = o.less_boolean _ _;
    after = o.less_boolean _ _;
  }
  compare-Reads (boolean false) (boolean false) h = record {
    kinds = refl;
    before = o.less_boolean _ _;
    after = o.less_boolean _ _;
  }
  compare-Reads _ _ h = cc
