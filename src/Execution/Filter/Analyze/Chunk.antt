-- ===== src/Execution/Filter/Analyze/Chunk.antt =====
-- `process` of src/execution/operators/filter.ts with the plan that `_analyze` gives.

use query_engine.Prelude.{
  ℕ, String, ◌≤◌, ◌≡◌, refl, sym, ap₂, ◌∙◌, Bool, true, false, not, ◌&&◌, ◌||◌, Option, none, some,
  List, get_elem?, ◌==◌, if◌then◌else◌, Option-cases, inl, inr, arith,
}
use query_engine.Values.{Value, Js, null, is_null, is_true}
use query_engine.Values.Ops.{comparison, lifted, binary_value_op}
use query_engine.Exprs.{ColumnRef, Row, BoundExpr}
use query_engine.Exprs.Eval.{eval, apply_binary, between_value}
use query_engine.Execution.Columns.{DataType, ColumnMapping, optional_column_index}
use query_engine.Execution.Filter.{
  Column, DataChunk, FilterOperation, filter_eq, Leaf, simple, between_leaf, FilterPlan, leaf_plan,
  and_plan, or_plan, column_data, process,
}
use query_engine.Execution.Filter.Conjunction.{Keeps, execute_fallback-Keeps}
use query_engine.Execution.Filter.Process.{
  holds_at, column_holds, plan_holds, Dispatches, Conjunctive, process-Keeps,
}
use query_engine.Execution.Filter.Analyze.{analyze}
use query_engine.Execution.Filter.Analyze.Sound.{leaf_holds, plan_on, plain, analyze_sound}

abbrev pub value_or_null : {F : Type 0} → Option (Value F) → Value F
value_or_null none = null
value_or_null (some v) = v

abbrev pub value_in : {F : Type 0} → Option (List (Value F)) → ℕ → Value F
value_in none i = null
value_in (some values) i = value_or_null (get_elem? values i)

-- The value of a column at a row, null where the column has none.
abbrev pub cell_at : {F : Type 0} → Option (Column F) → ℕ → Value F
cell_at none i = null
cell_at (some column) i =
    if column.has_nulls && column.is_null_at i then null else value_in column.data_values i

-- The rows on which a predicate is true.
abbrev pub is_true_at : {F : Type 0} → Js F → (ℕ → Row F) → BoundExpr F → ℕ → Bool
is_true_at js rows e i = is_true (eval js (rows i) e)

module _ {F : Type 0} (js : Js F) where
  holds-null : (leaf : Leaf F) → leaf_holds js leaf null ≡ false
  unfolding leaf_holds binary_value_op comparison lifted is_null is_true between_value apply_binary
  holds-null (simple filter_eq v) = refl
  holds-null (simple operation v) = refl
  holds-null (between_leaf low high) = refl

  holds_at-value :
      (leaf : Leaf F) (missing : Bool) (o : Option (Value F))
      → (holds_at (leaf_holds js) leaf o && not missing)
        ≡ leaf_holds js leaf (if missing then null else value_or_null o)
  holds_at-value leaf true o = ground (arith, holds-null leaf)
  holds_at-value leaf false none = sym (holds-null leaf)
  holds_at-value leaf false (some v) = ground arith

  absent :
      (leaf : Leaf F) (missing : Bool) → false ≡ leaf_holds js leaf (if missing then null else null)
  absent leaf true = sym (holds-null leaf)
  absent leaf false = sym (holds-null leaf)

  column_holds-cell :
      (leaf : Leaf F) (column : Column F) (values : Option (List (Value F))) (i : ℕ)
      → column_holds (leaf_holds js) leaf (some column) values i
        ≡ leaf_holds js leaf
            (if column.has_nulls && column.is_null_at i then null else value_in values i)
  column_holds-cell leaf column none i = absent leaf (column.has_nulls && column.is_null_at i)
  column_holds-cell leaf column (some values) i =
      holds_at-value leaf (column.has_nulls && column.is_null_at i) (get_elem? values i)

  leaf-cell :
      (leaf : Leaf F) (o : Option (Column F)) (i : ℕ)
      → column_holds (leaf_holds js) leaf o (column_data none o) i
        ≡ leaf_holds js leaf (cell_at o i)
  unfolding column_data
  leaf-cell leaf none i = sym (holds-null leaf)
  leaf-cell leaf (some column) i = column_holds-cell leaf column column.data_values i

  plan_holds-plan_on :
      (columns : List (Column F)) (plan : FilterPlan F) (i : ℕ)
      → plan_holds (leaf_holds js) columns plan i
        ≡ plan_on js (λ k. cell_at (get_elem? columns k) i) plan
  plan_holds-plan_on columns (leaf_plan index leaf) i = leaf-cell leaf (get_elem? columns index) i
  plan_holds-plan_on columns (and_plan l r) i =
      ap₂ (λ a b. a && b) (plan_holds-plan_on columns l i) (plan_holds-plan_on columns r i)
  plan_holds-plan_on columns (or_plan l r) i =
      ap₂ (λ a b. a || b) (plan_holds-plan_on columns l i) (plan_holds-plan_on columns r i)

-- Each row, as far as references resolve, is the row of the chunk at its place.
module _ {F : Type 0} (js : Js F) (upper : String → String) (data_type : ColumnRef → DataType)
    (can_parallelize : FilterOperation → DataType → Bool) (mapping : Option ColumnMapping)
    (filter_parallel : List (Value F) → Leaf F → Option (List ℕ))
    (right : Dispatches (leaf_holds js) filter_parallel) (chunk : DataChunk F)
    (fresh : chunk.selection_vector ≡ none) (some_row : 1 ≤ chunk.size) (rows : ℕ → Row F)
    (found : (i : ℕ) (c : ColumnRef) (k : ℕ)
      → optional_column_index upper c mapping ≡ some k
      → rows i c ≡ cell_at (get_elem? chunk.columns k) i) where
  planned-Keeps :
      (e : BoundExpr F) (plan : FilterPlan F)
      → analyze upper data_type can_parallelize mapping e ≡ some plan
      → plain e ≡ true
      → Conjunctive (leaf_holds js) filter_parallel chunk plan
      → Keeps chunk.size
          (is_true_at js rows e)
          (process filter_parallel (some plan) (is_true_at js rows e) chunk)
  planned-Keeps e plan p h c =
      process-Keeps (leaf_holds js) filter_parallel right chunk fresh plan (is_true_at js rows e) c
        some_row
        (λ i l.
          plan_holds-plan_on js chunk.columns plan i
          ∙ analyze_sound js upper data_type can_parallelize mapping (rows i)
              (λ k. cell_at (get_elem? chunk.columns k) i) (found i) e plan p h)

  nonempty : (n : ℕ) → 1 ≤ n → (n == 0) ≡ false
  nonempty n h = ground arith

  fallback-Keeps :
      (evaluator : ℕ → Bool)
      → Keeps chunk.size evaluator (process filter_parallel none evaluator chunk)
  unfolding process
  fallback-Keeps evaluator =
      rw (nonempty chunk.size some_row) (execute_fallback-Keeps chunk fresh evaluator)

  -- Let a chunk have at least one row and no selection, let the dispatch answer with the positions that
  -- pass, and let the predicate have no comparison with its column on the right and no negated
  -- BETWEEN. If its plan has no OR, and its leaves are answered and the sides of its ANDs give
  -- results, then the filter keeps exactly the rows on which the predicate is true.
  pub process-analyze :
      (e : BoundExpr F)
      → plain e ≡ true
      → ((plan : FilterPlan F)
          → analyze upper data_type can_parallelize mapping e ≡ some plan
          → Conjunctive (leaf_holds js) filter_parallel chunk plan)
      → Keeps chunk.size (is_true_at js rows e) (
          process filter_parallel
            (analyze upper data_type can_parallelize mapping e)
            (is_true_at js rows e)
            chunk)
  process-analyze e h c = elim (Option-cases (analyze upper data_type can_parallelize mapping e)) [
    | inl n ↦ rw n (fallback-Keeps (is_true_at js rows e))
    | inr (plan, p) ↦ rw p (planned-Keeps e plan p h (c plan p))
  ]
