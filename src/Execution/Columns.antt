-- ===== src/Execution/Columns.antt =====
-- src/execution/column-resolve.ts: the column of the input that a reference stands for, and the types of
-- src/storage/data-type.ts.
use Prim.Native.String.{◌++◌}
use query_engine.Prelude.{ℕ, String, Bool, true, false, Option, none, some}
use query_engine.Prelude.Int.{ℤ, pos, negsuc}
use query_engine.Exprs.{ColumnRef}

pub data DataType : Type 0 where
  boolean_type int32_type int64_type float64_type : DataType
  decimal_type varchar_type date_type timestamp_type : DataType

unfoldable pub is_fixed_width : DataType → Bool
is_fixed_width varchar_type = false
is_fixed_width _ = true

-- What a column mapping holds of a name; `ambiguous_column` is AMBIGUOUS_COLUMN.
pub data MappedIndex : Type 0 where
  at_index : ℕ → MappedIndex
  ambiguous_column : MappedIndex

abbrev pub ColumnMapping : Type 0
ColumnMapping = String → Option MappedIndex

abbrev pub or_name : Option MappedIndex → Option MappedIndex → Option MappedIndex
or_name (some i) unqualified = some i
or_name none unqualified = unqualified

-- `columnIndex >= 0 ? columnIndex : null`
abbrev pub own_index : ℤ → Option MappedIndex
own_index (pos n) = some (at_index n)
own_index (negsuc n) = none

-- `upper` is `toUpperCase`.
module _ (upper : String → String) where
  unfoldable pub lookup_column_index : ColumnRef → Option ColumnMapping → Option MappedIndex
  lookup_column_index r none = own_index r.column_index
  lookup_column_index r (some mapping) =
      or_name (mapping (upper (r.table_alias ++ ("." ++ r.column_name))))
        (mapping (upper r.column_name))

  abbrev pub index_of : Option MappedIndex → Option ℕ
  index_of (some (at_index i)) = some i
  index_of (some ambiguous_column) = none
  index_of none = none

  -- `optionalColumnIndex`; none is UNRESOLVED_COLUMN.
  unfoldable pub optional_column_index : ColumnRef → Option ColumnMapping → Option ℕ
  unfolding lookup_column_index
  optional_column_index r mapping = index_of (lookup_column_index r mapping)

  -- `resolveColumnIndex`
  pub data Resolved : Type 0 where
    resolved : ℕ → Resolved
    unresolved_reference ambiguous_reference : Resolved

  abbrev pub or_error : Option MappedIndex → Resolved
  or_error (some (at_index i)) = resolved i
  or_error (some ambiguous_column) = ambiguous_reference
  or_error none = unresolved_reference

  unfoldable pub resolve_column_index : ColumnRef → Option ColumnMapping → Resolved
  unfolding lookup_column_index
  resolve_column_index r mapping = or_error (lookup_column_index r mapping)
