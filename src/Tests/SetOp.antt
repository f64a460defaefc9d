-- ===== src/Tests/SetOp.antt =====
-- INTERSECT ALL of chunks with one column, whose values are the keys.
use query_engine.Prelude.{
  ℕ, ◌≡◌, refl, String, true, false, Option, none, some, List, [], ◌∷◌, get_elem?,
}
use query_engine.Values.{Value, text}
use query_engine.Execution.Filter.{Column, DataChunk}
use query_engine.Execution.SetOp.{intersect, SetOpPolicy, set_op_policy, fresh_operator}
use query_engine.Execution.SetOp.Bags.{
  multiplicity, count_chunks, consume_all, filter_all, filter_all-multiplicity,
}

abbrev text_at : Option (Value ℕ) → String
text_at (some (text s)) = s
text_at _ = ""

abbrev or_nothing : Option (List (Value ℕ)) → List (Value ℕ)
or_nothing none = []
or_nothing (some values) = values

abbrev values_of : List (Column ℕ) → List (Value ℕ)
values_of [] = []
values_of (column ∷ columns) = or_nothing column.data_values

abbrev row_key : List (Column ℕ) → ℕ → String
row_key columns row = text_at (get_elem? (values_of columns) row)

abbrev chunk_of : List (Value ℕ) → ℕ → DataChunk ℕ
chunk_of values size = record {
  columns = record { data_values = some values; has_nulls = false; is_null_at = λ i. false } ∷ [];
  size = size;
  selection_vector = none;
}

abbrev lefts : List (DataChunk ℕ)
lefts =
    chunk_of (text "a" ∷ text "b" ∷ text "a" ∷ []) 3 ∷ chunk_of (text "a" ∷ text "c" ∷ []) 2 ∷ []

abbrev rights : List (DataChunk ℕ)
rights = chunk_of (text "a" ∷ text "c" ∷ text "a" ∷ []) 3 ∷ []

abbrev chosen : Option SetOpPolicy → SetOpPolicy
chosen (some p) = p
chosen none = record { keep_row = λ remaining emitted. false; consumes_right = false }

abbrev intersect_all_policy : SetOpPolicy
intersect_all_policy = chosen (set_op_policy intersect true)

filter_all-multiplicity_example :
    count_chunks row_key "a"
      (filter_all row_key lefts (consume_all row_key rights (fresh_operator intersect_all_policy)))
    ≡ multiplicity intersect true (count_chunks row_key "a" lefts) (count_chunks row_key "a" rights)
unfolding set_op_policy
filter_all-multiplicity_example =
    filter_all-multiplicity row_key intersect true intersect_all_policy lefts rights "a" refl

a_on_the_left : count_chunks row_key "a" lefts ≡ 3
a_on_the_left = refl

a_on_both :
    multiplicity intersect true (count_chunks row_key "a" lefts) (count_chunks row_key "a" rights)
    ≡ 2
a_on_both = refl
