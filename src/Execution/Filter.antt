-- ===== src/Execution/Filter.antt =====
-- src/execution/operators/filter.ts, and the part of src/storage/chunk.ts that it uses.
--
-- A selection vector is a list; all of them are made with the length that is passed beside them. The
-- waits of the asynchronous calls are left out, one filter runs its calls in order.
pub mod Merge
pub mod Selected
pub mod Conjunction
pub mod Process
pub mod AllRows
pub mod Disjunction
pub mod Analyze
use query_engine.Prelude.{
  ℕ, zero, suc, ◌+◌, Bool, true, false, not, ◌&&◌, Option, none, some, List, [], ◌∷◌, length,
  get_elem?, count_up, ltb, ◌==◌, if◌then◌else◌,
}
use query_engine.Values.{Value}

-- `data` is there in a plain column, not in a dictionary column; its length is the column's.
pub record Column (F : Type 0) : Type 0 where
  pub data_values : Option (List (Value F))
  pub has_nulls : Bool
  pub is_null_at : ℕ → Bool

pub record DataChunk (F : Type 0) : Type 0 where
  pub columns : List (Column F)
  pub size : ℕ
  pub selection_vector : Option (List ℕ)

pub data FilterOperation : Type 0 where
  filter_eq filter_lt filter_gt filter_le filter_ge : FilterOperation

-- `SimpleFilterPlan` and `BetweenFilterPlan` without the column
pub data Leaf (F : Type 0) : Type 0 where
  simple : FilterOperation → Value F → Leaf F
  between_leaf : Value F → Value F → Leaf F

pub data FilterPlan (F : Type 0) : Type 0 where
  leaf_plan : ℕ → Leaf F → FilterPlan F
  and_plan : FilterPlan F → FilterPlan F → FilterPlan F
  or_plan : FilterPlan F → FilterPlan F → FilterPlan F

-- The loop of `intersectSorted`. Each round drops an element of one of the lists.
unfoldable pub intersect_loop : ℕ → List ℕ → List ℕ → List ℕ
intersect_loop zero a b = []
intersect_loop (suc fuel) [] b = []
intersect_loop (suc fuel) (x ∷ a) [] = []
intersect_loop (suc fuel) (x ∷ a) (y ∷ b) =
    let both = x ∷ intersect_loop fuel a b in
    let left = intersect_loop fuel a (y ∷ b) in
    let right = intersect_loop fuel (x ∷ a) b in
    if x == y then both else if ltb x y then left else right

unfoldable pub intersect_sorted : List ℕ → List ℕ → List ℕ
unfolding intersect_loop
intersect_sorted a b = intersect_loop (length a + length b) a b

-- The three loops of `unionSorted`: what is left of one list is appended.
unfoldable pub union_loop : ℕ → List ℕ → List ℕ → List ℕ
union_loop zero [] b = b
union_loop zero (x ∷ a) b = x ∷ a
union_loop (suc fuel) [] b = b
union_loop (suc fuel) (x ∷ a) [] = x ∷ a
union_loop (suc fuel) (x ∷ a) (y ∷ b) =
    let both = x ∷ union_loop fuel a b in
    let left = x ∷ union_loop fuel a (y ∷ b) in
    let right = y ∷ union_loop fuel (x ∷ a) b in
    if x == y then both else if ltb x y then left else right

unfoldable pub union_sorted : List ℕ → List ℕ → List ℕ
unfolding union_loop
union_sorted a b = union_loop (length a + length b) a b

abbrev pub keep : (ℕ → Bool) → List ℕ → List ℕ
keep p [] = []
keep p (i ∷ is) = let rest = keep p is in if p i then i ∷ rest else rest

abbrev pub is_selected : Option (List ℕ) → Bool
is_selected none = false
is_selected (some sv) = true

-- The rows of a chunk with `n` rows.
abbrev pub rows_of : ℕ → Option (List ℕ) → List ℕ
rows_of n none = count_up 0 n
rows_of n (some sv) = sv

module _ {F : Type 0} where
  unfoldable pub empty_chunk : DataChunk F → DataChunk F
  empty_chunk chunk = record { columns = chunk.columns; size = 0; selection_vector = none }

  -- `_applySelectionVector`
  unfoldable pub apply_selection_vector : DataChunk F → List ℕ → DataChunk F
  unfolding empty_chunk
  apply_selection_vector chunk sv =
      if length sv == 0
      then empty_chunk chunk
      else if (length sv == chunk.size) && not (is_selected chunk.selection_vector)
      then chunk
      else record { columns = chunk.columns; size = length sv; selection_vector = some sv }

  -- `_dropNullRows`
  unfoldable pub drop_null_rows : Column F → List ℕ → List ℕ
  drop_null_rows column sv =
      if column.has_nulls then keep (λ i. not (column.is_null_at i)) sv else sv

  -- `_getColumnData`
  unfoldable pub column_data : Option (List ℕ) → Option (Column F) → Option (List (Value F))
  column_data (some sv) column = none
  column_data none none = none
  column_data none (some column) = column.data_values

  -- The end of `_executeSimple` and of `_executeBetween`
  unfoldable pub leaf_result :
      DataChunk F → Option (Column F) → Option (List ℕ) → Option (DataChunk F)
  unfolding apply_selection_vector drop_null_rows
  leaf_result chunk none found = none
  leaf_result chunk (some column) none = none
  leaf_result chunk (some column) (some sv) =
      some (apply_selection_vector chunk (drop_null_rows column sv))

  abbrev pub merge_selected :
      (List ℕ → List ℕ → List ℕ)
      → DataChunk F
      → Option (List ℕ)
      → Option (List ℕ)
      → Option (DataChunk F)
      → Option (DataChunk F)
      → Option (DataChunk F)
  merge_selected merge chunk (some a) (some b) no_left no_right =
      some (apply_selection_vector chunk (merge a b))
  merge_selected merge chunk none (some b) no_left no_right = no_left
  merge_selected merge chunk (some a) none no_left no_right = no_right
  merge_selected merge chunk none none no_left no_right = none

  -- `_executeAnd`, from the results of its sides
  unfoldable pub and_result :
      DataChunk F → Option (DataChunk F) → Option (DataChunk F) → Option (DataChunk F)
  unfolding empty_chunk intersect_sorted apply_selection_vector
  and_result chunk none right = some (empty_chunk chunk)
  and_result chunk (some l) none = some (empty_chunk chunk)
  and_result chunk (some l) (some r) =
      if l.size == 0
      then some (empty_chunk chunk)
      else if r.size == 0
      then some (empty_chunk chunk)
      else merge_selected intersect_sorted chunk l.selection_vector r.selection_vector none none

  -- `_executeOr`, from the results of its sides
  unfoldable pub or_result :
      DataChunk F → Option (DataChunk F) → Option (DataChunk F) → Option (DataChunk F)
  unfolding union_sorted apply_selection_vector
  or_result chunk none right = right
  or_result chunk (some l) none = some l
  or_result chunk (some l) (some r) =
      merge_selected union_sorted chunk l.selection_vector r.selection_vector (some r) (some l)

module _ {F : Type 0} (filter_parallel : List (Value F) → Leaf F → Option (List ℕ)) where
  abbrev pub dispatched : Option (List (Value F)) → Leaf F → Option (List ℕ)
  dispatched none leaf = none
  dispatched (some values) leaf = filter_parallel values leaf

  -- `_executeParallel`. The right side of an AND is not run when the left has failed or has no rows;
  -- its result is not used then.
  unfoldable pub execute_parallel : DataChunk F → FilterPlan F → Option (DataChunk F)
  unfolding leaf_result column_data and_result or_result
  execute_parallel chunk (leaf_plan index leaf) =
      let column = get_elem? chunk.columns index in
      leaf_result chunk column (dispatched (column_data chunk.selection_vector column) leaf)
  execute_parallel chunk (and_plan l r) =
      and_result chunk (execute_parallel chunk l) (execute_parallel chunk r)
  execute_parallel chunk (or_plan l r) =
      or_result chunk (execute_parallel chunk l) (execute_parallel chunk r)

-- `_executeFallback`, with the evaluator at each row
module _ {F : Type 0} where
  unfoldable pub fallback_of : DataChunk F → List ℕ → DataChunk F
  unfolding empty_chunk
  fallback_of chunk sv =
      if length sv == 0
      then empty_chunk chunk
      else if length sv == chunk.size
      then chunk
      else record { columns = chunk.columns; size = length sv; selection_vector = some sv }

  unfoldable pub execute_fallback : (ℕ → Bool) → DataChunk F → DataChunk F
  unfolding fallback_of
  execute_fallback evaluator chunk =
      fallback_of chunk (keep evaluator (rows_of chunk.size chunk.selection_vector))

  abbrev pub or_fallback : Option (DataChunk F) → DataChunk F → DataChunk F
  or_fallback none fallback = fallback
  or_fallback (some result) fallback = result

  -- `process`, with what `_analyze` gives when there is a parallel dispatch
  unfoldable pub process :
      (List (Value F) → Leaf F → Option (List ℕ))
      → Option (FilterPlan F)
      → (ℕ → Bool)
      → DataChunk F
      → DataChunk F
  unfolding execute_parallel execute_fallback empty_chunk
  process filter_parallel none evaluator chunk =
      if chunk.size == 0 then empty_chunk chunk else execute_fallback evaluator chunk
  process filter_parallel (some plan) evaluator chunk =
      if chunk.size == 0
      then empty_chunk chunk
      else or_fallback (execute_parallel filter_parallel chunk plan)
          (execute_fallback evaluator chunk)
