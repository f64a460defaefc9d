-- ===== src/Values/Ops.antt =====
-- src/execution/value-ops.ts: the operators of SQL on nullable values. The branches for intervals
-- are not modelled, and with them `+ts` and `-ts` are `+` and `-`.
use query_engine.Prelude.{Bool, true, false, not, ◌&&◌, ◌||◌, Option, none, some, if◌then◌else◌}
use query_engine.Values.{Value, Js, null, number, bigint, text, boolean, is_null, is_true, is_false}

-- The keys of `BINARY_VALUE_OPS`; `unknown_op` is every other string.
pub data BinaryOp : Type 0 where
  eq ne lt gt le ge : BinaryOp
  and or : BinaryOp
  add sub mul rem div cat : BinaryOp
  unknown_op : BinaryOp

-- The keys of `UNARY_VALUE_OPS`; `other_op` is every other string.
pub data UnaryOp : Type 0 where
  neg not_op other_op : UnaryOp

abbrev pub BinaryValueOp : Type 0 → Type 0
BinaryValueOp F = Value F → Value F → Value F

abbrev pub UnaryValueOp : Type 0 → Type 0
UnaryValueOp F = Value F → Value F

-- `AND` and `OR` compare with `false` and `true` themselves; any other value is not null.
unfoldable pub and_value : {F : Type 0} → BinaryValueOp F
unfolding is_false is_null
and_value l r =
    if is_false l || is_false r
    then boolean false
    else if is_null l || is_null r
    then null
    else boolean true

unfoldable pub or_value : {F : Type 0} → BinaryValueOp F
unfolding is_true is_null
or_value l r =
    if is_true l || is_true r
    then boolean true
    else if is_null l || is_null r
    then null
    else boolean false

module _ {F : Type 0} (js : Js F) where
  -- A value that is not NaN: NaN is the one number that is not `===` to itself.
  unfoldable pub regular : Value F → Bool
  regular (number a) = js.strict_equal (number a) (number a)
  regular _ = true

  -- How a `Set` compares its values: as `===`, but NaN is the same as NaN.
  unfoldable pub same_value_zero : Value F → Value F → Bool
  unfolding regular
  same_value_zero a b = js.strict_equal a b || (not (regular a) && not (regular b))

  unfoldable pub to_num : Value F → Value F
  to_num (bigint b) = number (js.to_number b)
  to_num v = v

  -- `left == null || right == null ? null : fn(toNum(left), toNum(right))`
  unfoldable pub lifted : (Value F → Value F → Value F) → BinaryValueOp F
  unfolding is_null to_num
  lifted fn l r = if is_null l || is_null r then null else fn (to_num l) (to_num r)

  unfoldable pub comparison : (Value F → Value F → Bool) → BinaryValueOp F
  unfolding lifted
  comparison test = lifted (λ a b. boolean (test a b))

  unfoldable pub arithmetic : (Value F → Value F → Value F) → BinaryValueOp F
  unfolding lifted
  arithmetic fn = lifted fn

  -- A division by zero is null.
  unfoldable pub div_value : BinaryValueOp F
  unfolding is_null to_num
  div_value l r =
      if is_null l || is_null r
      then null
      else if js.strict_equal (to_num r) (number js.zero)
      then null
      else js.divide (to_num l) (to_num r)

  unfoldable pub cat_value : BinaryValueOp F
  unfolding is_null
  cat_value l r =
      if is_null l || is_null r then null else js.plus (text (js.to_text l)) (text (js.to_text r))

  unfoldable pub binary_value_op : BinaryOp → Option (BinaryValueOp F)
  unfolding comparison arithmetic div_value cat_value and_value or_value
  binary_value_op eq = some (comparison js.strict_equal)
  binary_value_op ne = some (comparison (λ a b. not (js.strict_equal a b)))
  binary_value_op lt = some (comparison js.less)
  binary_value_op gt = some (comparison (λ a b. js.less b a))
  binary_value_op le = some (comparison js.less_equal)
  binary_value_op ge = some (comparison (λ a b. js.less_equal b a))
  binary_value_op and = some and_value
  binary_value_op or = some or_value
  binary_value_op add = some (arithmetic js.plus)
  binary_value_op sub = some (arithmetic js.minus)
  binary_value_op mul = some (arithmetic js.times)
  binary_value_op rem = some (arithmetic js.remainder)
  binary_value_op div = some div_value
  binary_value_op cat = some cat_value
  binary_value_op unknown_op = none

  unfoldable pub unary_value_op : UnaryOp → Option (UnaryValueOp F)
  unfolding is_null
  unary_value_op neg = some (λ v. if is_null v then null else js.negate v)
  unary_value_op not_op = some (λ v. if is_null v then null else boolean (not (js.truthy v)))
  unary_value_op other_op = none
