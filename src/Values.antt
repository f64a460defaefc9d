-- ===== src/Values.antt =====
-- The values of src/execution/execution-types.ts (`EvalValue`) and the operators that JavaScript
-- applies to them, which the engine only calls.
pub mod Ops
use query_engine.Prelude.{String, Bool, true, false}
use query_engine.Prelude.Int.{ℤ}

-- A number is an element of `F`. `null` stands for `undefined` too, since every test of the
-- modelled code treats the two alike. An interval value is not modelled.
pub data Value (F : Type 0) : Type 0 where
  null : Value F
  number : F → Value F
  bigint : ℤ → Value F
  text : String → Value F
  boolean : Bool → Value F

-- `v == null`
unfoldable pub is_null : {F : Type 0} → Value F → Bool
is_null null = true
is_null _ = false

-- `v === true` and `v === false`
unfoldable pub is_true : {F : Type 0} → Value F → Bool
is_true (boolean true) = true
is_true _ = false

unfoldable pub is_false : {F : Type 0} → Value F → Bool
is_false (boolean false) = true
is_false _ = false

-- JavaScript's own operators on values that are not null.
pub record Js (F : Type 0) : Type 0 where
  pub zero : F
  -- `Number(b)` of a bigint
  pub to_number : ℤ → F
  -- `a < b`, `a <= b`, `a === b`, `a == b`
  pub less : Value F → Value F → Bool
  pub less_equal : Value F → Value F → Bool
  pub strict_equal : Value F → Value F → Bool
  pub loose_equal : Value F → Value F → Bool
  -- `+ - * / %` and the unary minus
  pub plus : Value F → Value F → Value F
  pub minus : Value F → Value F → Value F
  pub times : Value F → Value F → Value F
  pub divide : Value F → Value F → Value F
  pub remainder : Value F → Value F → Value F
  pub negate : Value F → Value F
  -- `Number(v)`, `!!v` and `String(v)`
  pub as_number : Value F → Value F
  pub truthy : Value F → Bool
  pub to_text : Value F → String
