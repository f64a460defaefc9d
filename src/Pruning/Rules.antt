-- ===== src/Pruning/Rules.antt =====
-- src/execution/zone-map-pruner.ts: comparing an end of a range with a literal, and what an operator
-- can then give.
use query_engine.Prelude.{Bool, true, false, not, ◌&&◌, Option, none, some, if◌then◌else◌}
use query_engine.Values.{Value, Js, number, text, boolean}
use query_engine.Values.Ops.{BinaryOp, eq, ne, lt, gt, le, ge}

-- The result of `compareComparable`: -1, 0, 1 or NaN.
pub data Comparison : Type 0 where
  below same above nan : Comparison

-- `c <= 0`, `c >= 0`, `c < 0`, `c > 0`, `c === 0` and `Number.isNaN(c)`
unfoldable pub at_most_0 : Comparison → Bool
at_most_0 below = true
at_most_0 same = true
at_most_0 _ = false

unfoldable pub at_least_0 : Comparison → Bool
at_least_0 same = true
at_least_0 above = true
at_least_0 _ = false

unfoldable pub is_below : Comparison → Bool
is_below below = true
is_below _ = false

unfoldable pub is_above : Comparison → Bool
is_above above = true
is_above _ = false

unfoldable pub is_same : Comparison → Bool
is_same same = true
is_same _ = false

unfoldable pub is_nan : Comparison → Bool
is_nan nan = true
is_nan _ = false

-- The rule of an operator: from how the least and the greatest value compare to the literal, can
-- the comparison be true, and can it be false?
pub record RangeRule : Type 0 where
  pub possibly_true : Comparison → Comparison → Bool
  pub possibly_false : Comparison → Comparison → Bool

unfoldable pub range_rule : BinaryOp → Option RangeRule
unfolding at_most_0 at_least_0 is_below is_above is_same
range_rule eq = some (record {
  possibly_true = λ lo hi. at_most_0 lo && at_least_0 hi;
  possibly_false = λ lo hi. not (is_same lo && is_same hi);
})
range_rule ne = some (record {
  possibly_true = λ lo hi. not (is_same lo && is_same hi);
  possibly_false = λ lo hi. at_most_0 lo && at_least_0 hi;
})
range_rule lt =
    some (record { possibly_true = λ lo hi. is_below lo; possibly_false = λ lo hi. at_least_0 hi })
range_rule le =
    some (record { possibly_true = λ lo hi. at_most_0 lo; possibly_false = λ lo hi. is_above hi })
range_rule gt =
    some (record { possibly_true = λ lo hi. is_above hi; possibly_false = λ lo hi. at_most_0 lo })
range_rule ge =
    some (record { possibly_true = λ lo hi. at_least_0 hi; possibly_false = λ lo hi. is_below lo })
range_rule _ = none

-- `FLIPPED_OPS[op] ?? op`
unfoldable pub flipped_op : BinaryOp → BinaryOp
flipped_op lt = gt
flipped_op le = ge
flipped_op gt = lt
flipped_op ge = le
flipped_op op = op

module _ {F : Type 0} (js : Js F) where
  -- `comparableOf` turns a bigint into a number, as `toNum` does.
  unfoldable pub compare_by_less : Value F → Value F → Comparison
  compare_by_less a b = if js.less a b then below else if js.less b a then above else same

  unfoldable pub compare_comparable : Value F → Value F → Comparison
  unfolding compare_by_less
  compare_comparable (text a) (text b) = compare_by_less (text a) (text b)
  compare_comparable (number a) (number b) = compare_by_less (number a) (number b)
  compare_comparable (boolean true) (boolean true) = same
  compare_comparable (boolean false) (boolean false) = same
  compare_comparable (boolean true) (boolean false) = above
  compare_comparable (boolean false) (boolean true) = below
  compare_comparable _ _ = nan
