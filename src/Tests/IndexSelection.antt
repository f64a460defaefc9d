-- ===== src/Tests/IndexSelection.antt =====
-- a > 5 AND a > 3 over a table with an index on its column a.
use query_engine.Prelude.{
  ℕ, ◌≡◌, refl, String, str_eq, Bool, false, Option, none, ltb, if◌then◌else◌,
}
use query_engine.Prelude.Int.{pos}
use query_engine.Values.{Value, null, number}
use query_engine.Values.Ops.{and, gt}
use query_engine.Exprs.{ColumnRef, BoundExpr, column_ref, literal, binary}
use query_engine.Optimizer.IndexSelection.{
  gt_type, ColumnStats, Numbers, ScanNode, Rewritten, scan_only, rewrite_filter,
}
use query_engine.Optimizer.IndexSelection.Dropped.{same_bound, rewrite_filter-later_bound}
use query_engine.Tests.Machine.{nat_js}

abbrev larger : Value ℕ → Value ℕ → Value ℕ
larger (number a) (number b) = number (if ltb a b then b else a)
larger a b = null

abbrev smaller : Value ℕ → Value ℕ → Value ℕ
smaller (number a) (number b) = number (if ltb a b then a else b)
smaller a b = null

-- In naturals the fractions round down.
abbrev numbers : Numbers ℕ
numbers = record {
  one = number 1;
  third = number 0;
  least = number 0;
  index_scan_selectivity_threshold = number 0;
}

abbrev same_text : String → String
same_text s = s

abbrev on_a : String → Bool
on_a s = str_eq s "A"

abbrev no_stats : String → Option (ColumnStats ℕ)
no_stats s = none

abbrev a_ref : ColumnRef
a_ref = record {
  table_alias = "T";
  column_name = "A";
  column_index = pos 0;
  depth = 0;
  is_correlated = false;
}

abbrev scan_t : ScanNode
scan_t = record { table = "T"; alias = none }

abbrev planned_for : BoundExpr ℕ → Rewritten ℕ
planned_for e = rewrite_filter nat_js larger smaller numbers same_text on_a no_stats e scan_t

abbrev above : ℕ → BoundExpr ℕ
above n = binary gt (column_ref a_ref) (literal (number n))

rewrite_filter-later_bound_example :
    planned_for (binary and (above 5) (above 3))
    ≡ scan_only (record {
      scanned_table = "T";
      scanned_alias = "T";
      index_name = "idx_T_A";
      scanned_column = "A";
      is_point = false;
      scan_key = null;
      scan_low = number 3;
      scan_high = null;
      scan_low_inc = false;
      scan_high_inc = false;
    })
unfolding rewrite_filter same_bound
rewrite_filter-later_bound_example =
    rewrite_filter-later_bound nat_js larger smaller numbers same_text on_a no_stats gt gt gt_type
      gt_type a_ref (number 5) (number 3) scan_t _ refl refl refl refl
