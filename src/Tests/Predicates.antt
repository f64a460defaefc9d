-- ===== src/Tests/Predicates.antt =====
-- Predicates over `t.a`, a column of the null-supplying side, and `s.b`.
use query_engine.Prelude.{ℕ, ◌≡◌, refl, ◌⊎◌, String, true, false, if◌then◌else◌, [], ◌∷◌}
use query_engine.Prelude.Int.{pos}
use query_engine.Values.{null, number, boolean}
use query_engine.Values.Ops.{eq, and, not_op}
use query_engine.Exprs.{Row, ColumnRef, BoundExpr, column_ref, literal, binary, unary}
use query_engine.Exprs.Eval.{eval}
use query_engine.Exprs.Conjuncts.{
  passes, all_pass, split_conjuncts, combine_from, combine_conjuncts, all_pass-split_conjuncts,
}
use query_engine.Optimizer.NullRejection.{
  NullColumnSource, plan_refs, is_null_rejecting, supplies_null, evaluate_with_nulls,
}
use query_engine.Optimizer.NullRejection.Sound.{
  is_null_rejecting_sound, scalar, conjunction, operation, column, constant, is_logical,
  NullSupplied,
}
use query_engine.Optimizer.NullRejection.Unsound.{is_null_rejecting-not_and}
use query_engine.Tests.Machine.{nat_js}

abbrev t_a : ColumnRef
t_a = record {
  table_alias = "T";
  column_name = "A";
  column_index = pos 0;
  depth = 0;
  is_correlated = false;
}

abbrev s_b : ColumnRef
s_b = record {
  table_alias = "S";
  column_name = "B";
  column_index = pos 1;
  depth = 0;
  is_correlated = false;
}

abbrev t_side : NullColumnSource
t_side = plan_refs (record { aliases = "T" ∷ []; columns = "A" ∷ [] })

abbrev same : String → String
same s = s

-- t.* is null, s.b is 5
abbrev row : Row ℕ
row r = if supplies_null same t_side r then null else number 5

abbrev a_is_1 : BoundExpr ℕ
a_is_1 = binary eq (column_ref t_a) (literal (number 1))

abbrev b_is_2 : BoundExpr ℕ
b_is_2 = binary eq (column_ref s_b) (literal (number 2))

row-NullSupplied : NullSupplied (supplies_null same t_side) row
row-NullSupplied r h = rw h

is_null_rejecting_sound_example :
    (eval nat_js row (binary and a_is_1 b_is_2) ≡ null)
    ⊎ (eval nat_js row (binary and a_is_1 b_is_2) ≡ boolean false)
unfolding is_logical is_null_rejecting evaluate_with_nulls supplies_null
is_null_rejecting_sound_example =
    is_null_rejecting_sound nat_js same t_side row {e = binary and a_is_1 b_is_2}
      (conjunction (scalar (operation refl column constant))
        (scalar (operation refl column constant)))
      row-NullSupplied refl

is_null_rejecting-not_and_example :
    (is_null_rejecting same (unary not_op (binary and a_is_1 b_is_2)) t_side ≡ true)
    × (eval nat_js row (unary not_op (binary and a_is_1 b_is_2)) ≡ boolean true)
unfolding evaluate_with_nulls supplies_null eval
is_null_rejecting-not_and_example =
    is_null_rejecting-not_and nat_js same t_side row a_is_1 b_is_2 refl refl refl refl

-- Both conjuncts of t.a = 1 AND s.b = 2 against the row, and s.b = 2 AND t.a = 1 combined
all_pass-split_conjuncts_example :
    (passes nat_js row (eval nat_js row (binary and a_is_1 b_is_2))
      ≡ all_pass nat_js row (split_conjuncts (binary and a_is_1 b_is_2)))
    × (passes nat_js row (eval nat_js row (binary and b_is_2 a_is_1))
        ≡ all_pass nat_js row (b_is_2 ∷ a_is_1 ∷ []))
unfolding combine_conjuncts combine_from
all_pass-split_conjuncts_example =
    all_pass-split_conjuncts nat_js row (binary and a_is_1 b_is_2) (binary and b_is_2 a_is_1)
      (b_is_2 ∷ a_is_1 ∷ []) refl
