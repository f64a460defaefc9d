-- ===== src/Exprs.antt =====
-- src/binder/expression-binder.ts: bound expressions.
pub mod Eval
pub mod Conjuncts
use query_engine.Prelude.{ℕ, String, Bool}
use query_engine.Values.{Value}
use query_engine.Prelude.Int.{ℤ}
use query_engine.Values.Ops.{BinaryOp, UnaryOp}

-- The fields of a column reference that resolution reads.
pub record ColumnRef : Type 0 where
  pub table_alias : String
  pub column_name : String
  pub column_index : ℤ
  pub depth : ℕ
  pub is_correlated : Bool

-- What a compiled expression reads of a row: the value of a resolved column.
abbrev pub Row : Type 0 → Type 0
Row F = ColumnRef → Value F

-- Operators are the parser's, already in upper case. `computed` is a node of any other kind (a
-- function call, CAST, CASE, LIKE, EXTRACT, an aggregate, a subquery), given by what it computes.
mutual
  pub data BoundExpr (F : Type 0) : Type 0 where
    column_ref : ColumnRef → BoundExpr F
    literal : Value F → BoundExpr F
    binary : BinaryOp → BoundExpr F → BoundExpr F → BoundExpr F
    unary : UnaryOp → BoundExpr F → BoundExpr F
    between : Bool → BoundExpr F → BoundExpr F → BoundExpr F → BoundExpr F
    in_list : Bool → BoundExpr F → BoundExprs F → BoundExpr F
    is_null_test : Bool → BoundExpr F → BoundExpr F
    computed : (Row F → Value F) → BoundExpr F

  pub data BoundExprs (F : Type 0) : Type 0 where
    nil : BoundExprs F
    cons : BoundExpr F → BoundExprs F → BoundExprs F
