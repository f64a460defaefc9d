-- ===== src/Execution/SetOp.antt =====
-- src/execution/operators/set-op.ts: INTERSECT and EXCEPT. The key of a row, which
-- src/execution/hash-table.ts prints from its values, is a parameter. A map of counts is a function that
-- is 0 at a key that is not in it.
pub mod Counts
pub mod Bags
use query_engine.Prelude.{
  ℕ, ◌+◌, ◌-◌, String, str_eq, Bool, true, false, ◌&&◌, Option, none, some, List, [], ◌∷◌, ltb,
  ◌==◌, if◌then◌else◌,
}
use query_engine.Execution.Filter.{Column, DataChunk, rows_of, apply_selection_vector}

pub data SetOpType : Type 0 where
  union intersect except : SetOpType

pub record SetOpPolicy : Type 0 where
  pub keep_row : ℕ → ℕ → Bool
  pub consumes_right : Bool

-- `setOpPolicy`. None is the error.
unfoldable pub set_op_policy : SetOpType → Bool → Option SetOpPolicy
set_op_policy union all = none
set_op_policy intersect true =
    some (record { keep_row = λ remaining emitted. ltb 0 remaining; consumes_right = true })
set_op_policy intersect false = some (record {
  keep_row = λ remaining emitted. ltb 0 remaining && (emitted == 0);
  consumes_right = false;
})
set_op_policy except true =
    some (record { keep_row = λ remaining emitted. remaining == 0; consumes_right = true })
set_op_policy except false = some (record {
  keep_row = λ remaining emitted. (remaining == 0) && (emitted == 0);
  consumes_right = false;
})

abbrev pub Counts : Type 0
Counts = String → ℕ

abbrev pub put_count : String → ℕ → Counts → Counts
put_count key n counts k = if str_eq key k then n else counts k

pub record SetOperator : Type 0 where
  pub policy : SetOpPolicy
  pub right_counts : Counts
  pub emitted_counts : Counts

abbrev pub fresh_operator : SetOpPolicy → SetOperator
fresh_operator policy = record { policy = policy; right_counts = λ k. 0; emitted_counts = λ k. 0 }

-- The loop of `consumeRight` over the keys of the active rows
abbrev pub count_right : List String → Counts → Counts
count_right [] counts = counts
count_right (key ∷ keys) counts = count_right keys (put_count key (counts key + 1) counts)

-- What one round of the loop of `filterLeft` leaves, and whether it keeps the row
abbrev pub round_keeps : SetOperator → String → Bool
round_keeps s key = s.policy.keep_row (s.right_counts key) (s.emitted_counts key)

unfoldable pub after_round : SetOperator → String → SetOperator
after_round s key = record {
  policy = s.policy;
  right_counts =
      if s.policy.consumes_right && ltb 0 (s.right_counts key)
      then put_count key (s.right_counts key - 1) s.right_counts
      else s.right_counts;
  emitted_counts =
      if round_keeps s key
      then put_count key (s.emitted_counts key + 1) s.emitted_counts
      else s.emitted_counts;
}

module _ {F : Type 0} (row_key : List (Column F) → ℕ → String) where
  -- The rows that the loop of `filterLeft` selects, and the state after it
  unfoldable pub filter_loop : List (Column F) → List ℕ → SetOperator → List ℕ × SetOperator
  unfolding after_round
  filter_loop columns [] s = ([], s)
  filter_loop columns (row ∷ rows) s =
      let key = row_key columns row in
      let rest = filter_loop columns rows (after_round s key) in
      (if round_keeps s key then row ∷ rest.0 else rest.0, rest.1)

  abbrev pub keys_of : List (Column F) → List ℕ → List String
  keys_of columns [] = []
  keys_of columns (row ∷ rows) = row_key columns row ∷ keys_of columns rows

  abbrev pub active_keys : DataChunk F → List String
  active_keys chunk = keys_of chunk.columns (rows_of chunk.size chunk.selection_vector)

  unfoldable pub consume_right : DataChunk F → SetOperator → SetOperator
  consume_right chunk s = record s { right_counts = count_right (active_keys chunk) s.right_counts }

  -- Its end builds the chunk as `_applySelectionVector` of the filter does.
  unfoldable pub filter_left : DataChunk F → SetOperator → DataChunk F × SetOperator
  unfolding filter_loop apply_selection_vector
  filter_left chunk s =
      let found = filter_loop chunk.columns (rows_of chunk.size chunk.selection_vector) s in
      (apply_selection_vector chunk (found.0), found.1)
