-- ===== src/Execution/Filter/Analyze/Truth.antt =====
-- The truth of the values that src/execution/value-ops.ts gives to conditions.

use query_engine.Prelude.{◌≡◌, Bool, true, false, ◌&&◌, ◌||◌, arith}
use query_engine.Values.{Value, Js, null, boolean, is_null, is_true, is_false}
use query_engine.Values.Ops.{and_value, or_value, comparison, lifted}
use query_engine.Exprs.Eval.{between_value, bound_test, both_bounds, negate_if}

-- True, false or null, as `is_true` sees them through AND.
abbrev pub is_logical : {F : Type 0} → Value F → Bool
is_logical null = true
is_logical (boolean b) = true
is_logical v = false

pub is_true-and :
    {F : Type 0} (l r : Value F)
    → is_logical l ≡ true
    → is_logical r ≡ true
    → is_true (and_value l r) ≡ (is_true l && is_true r)
unfolding and_value is_true is_false is_null
is_true-and l r hl hr = ground arith

pub is_true-or : {F : Type 0} (l r : Value F) → is_true (or_value l r) ≡ (is_true l || is_true r)
unfolding or_value is_true is_null
is_true-or l r = ground arith

pub and-is_logical : {F : Type 0} (l r : Value F) → is_logical (and_value l r) ≡ true
unfolding and_value is_false is_null
and-is_logical l r = ground arith

pub or-is_logical : {F : Type 0} (l r : Value F) → is_logical (or_value l r) ≡ true
unfolding or_value is_true is_null
or-is_logical l r = ground arith

pub comparison-is_logical :
    {F : Type 0} (js : Js F) (test : Value F → Value F → Bool) (l r : Value F)
    → is_logical (comparison js test l r) ≡ true
unfolding comparison lifted is_null
comparison-is_logical js test l r = ground arith

pub between-is_logical :
    {F : Type 0} (js : Js F) (negated : Bool) (v lo hi : Value F)
    → is_logical (between_value js negated v lo hi) ≡ true
unfolding between_value is_null bound_test both_bounds negate_if
between-is_logical js negated v lo hi = ground arith
