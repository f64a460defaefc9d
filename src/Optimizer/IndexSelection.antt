-- ===== src/Optimizer/IndexSelection.antt =====
-- src/optimizer/passes/index-selection.ts: a filter over a scan of a table becomes a scan of an index.
--
-- `upper` is `toUpperCase`, and `math_max` and `math_min` are those of JavaScript. `Numbers` has the
-- constants that the file and src/config.ts write out. The map of bounds is a list in the order of insertion.
pub mod Dropped
use Prim.Native.String.{◌++◌}
use query_engine.Prelude.{
  ℕ, zero, suc, String, str_eq, Bool, true, false, not, ◌&&◌, ◌||◌, Option, none, some, List, [],
  ◌∷◌, if◌then◌else◌, ◌==◌,
}
use query_engine.Values.{Value, Js, null, number, bigint, is_null}
use query_engine.Values.Ops.{BinaryOp, eq, gt, ge, lt, le}
use query_engine.Exprs.{ColumnRef, BoundExpr, column_ref, literal, binary}
use query_engine.Exprs.Conjuncts.{split_conjuncts, combine_conjuncts}

pub data ConjunctType : Type 0 where
  eq_type gt_type gte_type lt_type lte_type : ConjunctType

pub record ConjunctInfo (F : Type 0) : Type 0 where
  pub column : String
  pub value : Value F
  pub conjunct_type : ConjunctType

-- A bound that is `null` is absent.
pub record ColumnBounds (F : Type 0) : Type 0 where
  pub point : Value F
  pub low : Value F
  pub high : Value F
  pub low_inc : Bool
  pub high_inc : Bool
  pub conjunct_indices : List ℕ

pub record ColumnStats (F : Type 0) : Type 0 where
  pub ndv : Option F
  pub min : Value F
  pub max : Value F

pub record Numbers (F : Type 0) : Type 0 where
  pub one : Value F
  -- 0.33 and 0.0001
  pub third : Value F
  pub least : Value F
  pub index_scan_selectivity_threshold : Value F

-- The node that is filtered, when it scans a table
pub record ScanNode : Type 0 where
  pub table : String
  pub alias : Option String

-- `scanType` is a point when `scan_key` is to be searched for, and a range otherwise.
pub record IndexScan (F : Type 0) : Type 0 where
  pub scanned_table : String
  pub scanned_alias : String
  pub index_name : String
  pub scanned_column : String
  pub is_point : Bool
  pub scan_key : Value F
  pub scan_low : Value F
  pub scan_high : Value F
  pub scan_low_inc : Bool
  pub scan_high_inc : Bool

pub data Rewritten (F : Type 0) : Type 0 where
  kept_filter : BoundExpr F → Rewritten F
  scan_only : IndexScan F → Rewritten F
  filtered_scan : BoundExpr F → IndexScan F → Rewritten F

abbrev pub has_name : Option String → Bool
has_name none = false
has_name (some s) = not (str_eq s "")

abbrev pub alias_or : Option String → String → String
alias_or none table = table
alias_or (some s) table = if str_eq s "" then table else s

abbrev pub type_of : BinaryOp → Bool → Option ConjunctType
type_of eq flipped = some eq_type
type_of gt flipped = some (if flipped then lt_type else gt_type)
type_of ge flipped = some (if flipped then lte_type else gte_type)
type_of lt flipped = some (if flipped then gt_type else lt_type)
type_of le flipped = some (if flipped then gte_type else lte_type)
type_of op flipped = none

module _ {F : Type 0} (upper : String → String) where
  abbrev pub info_of : ColumnRef → Value F → String → Option ConjunctType → Option (ConjunctInfo F)
  info_of column value alias none = none
  info_of column value alias (some type) =
      if not (str_eq column.table_alias "") && not (str_eq (upper column.table_alias) (upper alias))
      then none
      else some (record { column = upper column.column_name; value = value; conjunct_type = type })

  -- `_analyzeConjunct`
  unfoldable pub analyze_conjunct : BoundExpr F → String → Option (ConjunctInfo F)
  analyze_conjunct (binary op (column_ref c) (literal v)) alias =
      info_of c v alias (type_of op false)
  analyze_conjunct (binary op (literal v) (column_ref c)) alias =
      info_of c v alias (type_of op true)
  analyze_conjunct e alias = none

abbrev pub push_index : ℕ → List ℕ → List ℕ
push_index i [] = i ∷ []
push_index i (j ∷ js) = j ∷ push_index i js

abbrev pub is_taken : ℕ → List ℕ → Bool
is_taken i [] = false
is_taken i (j ∷ js) = (i == j) || is_taken i js

module _ {F : Type 0} where
  abbrev pub no_bounds : ColumnBounds F
  no_bounds = record {
    point = null;
    low = null;
    high = null;
    low_inc = false;
    high_inc = false;
    conjunct_indices = [];
  }

  abbrev pub set_bound : ConjunctType → Value F → ColumnBounds F → ColumnBounds F
  set_bound eq_type v b = record b { point = v }
  set_bound gt_type v b = record b { low = v; low_inc = false }
  set_bound gte_type v b = record b { low = v; low_inc = true }
  set_bound lt_type v b = record b { high = v; high_inc = false }
  set_bound lte_type v b = record b { high = v; high_inc = true }

  abbrev pub update_bounds : ℕ → ConjunctInfo F → ColumnBounds F → ColumnBounds F
  update_bounds i info b =
      set_bound info.conjunct_type info.value
        (record b { conjunct_indices = push_index i b.conjunct_indices })

  -- `columnBounds` with the bounds of a column, made when it has none
  unfoldable pub add_bound :
      ℕ → ConjunctInfo F → List (String × ColumnBounds F) → List (String × ColumnBounds F)
  add_bound i info [] = (info.column, update_bounds i info no_bounds) ∷ []
  add_bound i info (entry ∷ rest) =
      let more = add_bound i info rest in
      if str_eq (entry.0) info.column
      then (entry.0, update_bounds i info (entry.1)) ∷ rest
      else entry ∷ more

  abbrev pub add_info :
      ℕ → Option (ConjunctInfo F) → List (String × ColumnBounds F) → List (String × ColumnBounds F)
  add_info i none bounds = bounds
  add_info i (some info) bounds = add_bound i info bounds

  -- The loop over the conjuncts, from index `i` on
  unfoldable pub collect_bounds :
      (String → String)
      → String
      → ℕ
      → List (BoundExpr F)
      → List (String × ColumnBounds F)
      → List (String × ColumnBounds F)
  unfolding analyze_conjunct add_bound
  collect_bounds upper alias i [] bounds = bounds
  collect_bounds upper alias i (e ∷ es) bounds =
      collect_bounds upper alias (suc i) es (add_info i (analyze_conjunct upper e alias) bounds)

  -- The conjuncts whose index is not taken
  unfoldable pub residual_from : ℕ → List ℕ → List (BoundExpr F) → List (BoundExpr F)
  residual_from i taken [] = []
  residual_from i taken (e ∷ es) =
      let rest = residual_from (suc i) taken es in if is_taken i taken then rest else e ∷ rest

module _ {F : Type 0} (js : Js F) (math_max math_min : Value F → Value F → Value F)
    (c : Numbers F) where
  -- `toNumericValue` of src/storage/data-type.ts; `null` is null.
  unfoldable pub to_numeric_value : Value F → Value F
  to_numeric_value (bigint b) = number (js.to_number b)
  to_numeric_value (number n) = number n
  to_numeric_value v = null

  abbrev pub or_else : Value F → Value F → Value F
  or_else v d = if is_null v then d else v

  -- `_estimateRangeSelectivity`
  unfoldable pub estimate_range_selectivity : ColumnStats F → ColumnBounds F → Value F
  unfolding to_numeric_value is_null
  estimate_range_selectivity stats b =
      let min = to_numeric_value stats.min in
      let max = to_numeric_value stats.max in
      let low = or_else (to_numeric_value b.low) min in
      let high = or_else (to_numeric_value b.high) max in
      let covered = math_max (number js.zero) (js.minus (math_min max high) (math_max min low)) in
      if is_null min || (is_null max || js.less_equal max min)
      then c.third
      else math_max c.least (js.divide covered (js.minus max min))

  abbrev pub with_ndv : ColumnStats F → ColumnBounds F → Option F → Bool
  with_ndv stats b none = false
  with_ndv stats b (some ndv) =
      js.less (number js.zero) (number ndv)
      && js.less c.index_scan_selectivity_threshold (
          if not (is_null b.point)
          then js.divide c.one (number ndv)
          else estimate_range_selectivity stats b)

  -- The statistics say that the index would read too many rows.
  abbrev pub too_many : ColumnBounds F → Option (ColumnStats F) → Bool
  too_many b none = false
  too_many b (some stats) = with_ndv stats b stats.ndv

module _ {F : Type 0} (has_index : String → Bool) (skips : String → ColumnBounds F → Bool) where
  -- The first column that has an index and is not skipped
  unfoldable pub best_bounds : List (String × ColumnBounds F) → Option (String × ColumnBounds F)
  best_bounds [] = none
  best_bounds (entry ∷ rest) =
      let more = best_bounds rest in
      if has_index (entry.0) && not (skips (entry.0) (entry.1)) then some entry else more

module _ {F : Type 0} where
  unfoldable pub index_scan :
      (String → String) → String → String → String → ColumnBounds F → IndexScan F
  unfolding is_null
  index_scan upper table alias column b =
      let point = not (is_null b.point) in
      record {
        scanned_table = table;
        scanned_alias = alias;
        index_name = upper ("idx_" ++ (table ++ ("_" ++ column)));
        scanned_column = column;
        is_point = point;
        scan_key = if point then b.point else null;
        scan_low = if point then null else b.low;
        scan_high = if point then null else b.high;
        scan_low_inc = if point then true else b.low_inc;
        scan_high_inc = if point then true else b.high_inc;
      }

  abbrev pub over_scan : Option (BoundExpr F) → IndexScan F → Rewritten F
  over_scan none scan = scan_only scan
  over_scan (some e) scan = filtered_scan e scan

  abbrev pub with_best :
      (String → String)
      → String
      → String
      → BoundExpr F
      → List (BoundExpr F)
      → Option (String × ColumnBounds F)
      → Rewritten F
  with_best upper table alias condition conjuncts none = kept_filter condition
  with_best upper table alias condition conjuncts (some (column, b)) =
      if str_eq column ""
      then kept_filter condition
      else over_scan (combine_conjuncts (residual_from 0 b.conjunct_indices conjuncts))
          (index_scan upper table alias column b)

  -- `rewriteFilter` over a scan. `stats` is the statistics of a column, when there are any.
  unfoldable pub rewrite_filter :
      Js F
      → (math_max math_min : Value F → Value F → Value F) → Numbers F
      → (upper : String → String) → (has_index : String → Bool)
      → (stats : String → Option (ColumnStats F)) → BoundExpr F
      → ScanNode
      → Rewritten F
  unfolding split_conjuncts combine_conjuncts collect_bounds best_bounds residual_from index_scan
  rewrite_filter js math_max math_min c upper has_index stats condition scan =
      let alias = alias_or scan.alias scan.table in
      let conjuncts = split_conjuncts condition in
      with_best upper scan.table alias condition conjuncts (
        best_bounds has_index (λ column b. too_many js math_max math_min c b (stats column))
          (collect_bounds upper alias 0 conjuncts []))
