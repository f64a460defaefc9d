-- ===== src/Execution/Filter/Process.antt =====
-- `process` of src/execution/operators/filter.ts on a chunk with no selection.
use query_engine.Prelude.{
  ℕ, ◌<◌, ◌≡◌, refl, ◌≤◌, sym, subst, ap, ◌∙◌, Bool, true, false, not, ◌&&◌, ◌||◌, Option, none,
  some, List, [], ◌∷◌, length, count_up, get_elem?, ◌==◌, if◌then◌else◌, arith,
}
use query_engine.Values.{Value}
use query_engine.Execution.Filter.{
  Column, DataChunk, Leaf, FilterPlan, leaf_plan, and_plan, or_plan, keep, empty_chunk,
  apply_selection_vector, drop_null_rows, leaf_result, column_data, and_result, dispatched,
  execute_parallel, execute_fallback, or_fallback, process,
}
use query_engine.Execution.Filter.Conjunction.{
  keep-ext, keep-keep, Keeps, KeepsIfAny, apply_selection_vector-Keeps, execute_fallback-Keeps,
  and_result-Keeps,
}

keep-not_null :
    (has_nulls : Bool) (nulls p : ℕ → Bool) (is : List ℕ)
    → (if has_nulls then keep (λ i. not (nulls i)) (keep p is) else keep p is)
      ≡ keep (λ i. p i && not (has_nulls && nulls i)) is
keep-not_null true nulls p is = keep-keep p (λ i. not (nulls i)) is
keep-not_null false nulls p [] = refl
keep-not_null false nulls p (i ∷ is) = ground (arith, keep-not_null false nulls p is)

module _ {F : Type 0} (holds : Leaf F → Value F → Bool) where
  -- The leaf's test on a value that may be missing.
  abbrev pub holds_at : Leaf F → Option (Value F) → Bool
  holds_at leaf none = false
  holds_at leaf (some v) = holds leaf v

  -- A row on which the column is null does not pass.
  abbrev pub column_holds : Leaf F → Option (Column F) → Option (List (Value F)) → ℕ → Bool
  column_holds leaf (some column) (some values) i =
      holds_at leaf (get_elem? values i) && not (column.has_nulls && column.is_null_at i)
  column_holds leaf _ _ i = false

  abbrev pub plan_holds : List (Column F) → FilterPlan F → ℕ → Bool
  plan_holds columns (leaf_plan index leaf) i =
      let column = get_elem? columns index in column_holds leaf column (column_data none column) i
  plan_holds columns (and_plan l r) i = plan_holds columns l i && plan_holds columns r i
  plan_holds columns (or_plan l r) i = plan_holds columns l i || plan_holds columns r i

  -- A dispatch answers with the positions, in order, of the values that pass.
  abbrev pub Dispatches : (List (Value F) → Leaf F → Option (List ℕ)) → Type 0
  Dispatches filter_parallel =
      (values : List (Value F)) (leaf : Leaf F) (sv : List ℕ)
      → filter_parallel values leaf ≡ some sv
      → sv ≡ keep (λ i. holds_at leaf (get_elem? values i)) (count_up 0 (length values))

  -- No OR, every leaf's column has as many values as the chunk has rows and its call is answered, and
  -- the sides of an AND give results.
  abbrev pub Conjunctive :
      (List (Value F) → Leaf F → Option (List ℕ)) → DataChunk F → FilterPlan F → Type 0
  Conjunctive filter_parallel chunk (leaf_plan index leaf) =
      (column : Column F) × (values : List (Value F)) × (sv : List ℕ) × (get_elem? chunk.columns
          index
        ≡ some column)
      × (column.data_values ≡ some values)
      × (length values ≡ chunk.size)
      × (filter_parallel values leaf ≡ some sv)
  Conjunctive filter_parallel chunk (and_plan l r) =
      Conjunctive filter_parallel chunk l
      × Conjunctive filter_parallel chunk r
      × ((left : DataChunk F) × (execute_parallel filter_parallel chunk l ≡ some left))
      × ((right : DataChunk F) × (execute_parallel filter_parallel chunk r ≡ some right))
  Conjunctive filter_parallel chunk (or_plan l r) = ⊥

  module _ (filter_parallel : List (Value F) → Leaf F → Option (List ℕ))
      (right : Dispatches filter_parallel) (chunk : DataChunk F)
      (fresh : chunk.selection_vector ≡ none) where
    drop_null_rows-keep :
        (column : Column F) (p : ℕ → Bool) (is : List ℕ)
        → drop_null_rows column (keep p is)
          ≡ keep (λ i. p i && not (column.has_nulls && column.is_null_at i)) is
    unfolding drop_null_rows
    drop_null_rows-keep column p is = keep-not_null column.has_nulls column.is_null_at p is

    pub execute_leaf-passing :
        (index : ℕ) (leaf : Leaf F)
        → Conjunctive filter_parallel chunk (leaf_plan index leaf)
        → execute_parallel filter_parallel chunk (leaf_plan index leaf)
          ≡ some (
              apply_selection_vector chunk
                (keep (plan_holds chunk.columns (leaf_plan index leaf)) (count_up 0 chunk.size)))
    unfolding execute_parallel leaf_result column_data
    execute_leaf-passing index leaf (column, values, sv, here, stored, sized, answer) =
        let found = λ (i : ℕ). holds_at leaf (get_elem? values i) in
        let selected =
          ap (drop_null_rows column)
            (right values leaf sv answer ∙ ap (λ n. keep found (count_up 0 n)) sized)
          ∙ drop_null_rows-keep column found (count_up 0 chunk.size) in
        let rows = count_up 0 chunk.size in
        subst
          (λ c.
            leaf_result chunk c
              (dispatched filter_parallel (column_data chunk.selection_vector c) leaf)
            ≡ some (
                apply_selection_vector chunk
                  (keep (column_holds leaf c (column_data none c)) rows)))
          (sym here)
          (subst
            (λ s.
              leaf_result chunk (some column)
                (dispatched filter_parallel (column_data s (some column)) leaf)
              ≡ some (
                  apply_selection_vector chunk
                    (keep (column_holds leaf (some column) column.data_values) rows)))
            (sym fresh)
            (subst
              (λ d.
                leaf_result chunk (some column) (dispatched filter_parallel d leaf)
                ≡ some
                    (apply_selection_vector chunk (keep (column_holds leaf (some column) d) rows)))
              (sym stored)
              (ap (leaf_result chunk (some column)) answer
                ∙ ap (λ x. some (apply_selection_vector chunk x)) selected)))

    leaf_result-Keeps :
        (index : ℕ) (leaf : Leaf F)
        → Conjunctive filter_parallel chunk (leaf_plan index leaf)
        → KeepsIfAny chunk.size
            (plan_holds chunk.columns (leaf_plan index leaf))
            (execute_parallel filter_parallel chunk (leaf_plan index leaf))
    leaf_result-Keeps index leaf c =
        let test = plan_holds chunk.columns (leaf_plan index leaf) in
        subst (λ x. KeepsIfAny chunk.size test x) (sym (execute_leaf-passing index leaf c))
          (apply_selection_vector-Keeps chunk fresh test)

    execute_parallel-Keeps :
        (plan : FilterPlan F)
        → Conjunctive filter_parallel chunk plan
        → KeepsIfAny chunk.size
            (plan_holds chunk.columns plan)
            (execute_parallel filter_parallel chunk plan)
    unfolding execute_parallel
    execute_parallel-Keeps (leaf_plan index leaf) c = leaf_result-Keeps index leaf c
    execute_parallel-Keeps (and_plan l r) (cl, cr, (lc, le), (rc, re)) =
        let holds_l = plan_holds chunk.columns l in
        let holds_r = plan_holds chunk.columns r in
        subst
          (λ x.
            KeepsIfAny chunk.size (plan_holds chunk.columns (and_plan l r))
              (and_result chunk x (execute_parallel filter_parallel chunk r)))
          (sym le)
          (subst
            (λ x.
              KeepsIfAny chunk.size (plan_holds chunk.columns (and_plan l r))
                (and_result chunk (some lc) x))
            (sym re)
            (and_result-Keeps chunk fresh holds_l holds_r lc rc
              (subst (λ x. KeepsIfAny chunk.size holds_l x) le (execute_parallel-Keeps l cl))
              (subst (λ x. KeepsIfAny chunk.size holds_r x) re (execute_parallel-Keeps r cr))))
    execute_parallel-Keeps (or_plan l r) c = absurd c

    -- Let a chunk have at least one row and no selection, and let the plan be a leaf or a conjunction
    -- whose leaves are answered by the dispatch and the sides of whose ANDs each give a result. If the
    -- evaluator agrees with the plan on every row, then the filter keeps exactly the rows of the chunk
    -- that pass, in order, whether it ran in parallel or fell back.
    pub process-Keeps :
        (plan : FilterPlan F) (evaluator : ℕ → Bool)
        → Conjunctive filter_parallel chunk plan
        → 1 ≤ chunk.size
        → ((i : ℕ) → i < chunk.size → plan_holds chunk.columns plan i ≡ evaluator i)
        → Keeps chunk.size evaluator (process filter_parallel (some plan) evaluator chunk)
    unfolding process
    process-Keeps plan evaluator c some_row agree =
        subst
          (λ b. Keeps chunk.size evaluator (
            if b
            then empty_chunk chunk
            else or_fallback (execute_parallel filter_parallel chunk plan)
                (execute_fallback evaluator chunk)))
          {x = false} {y = chunk.size == 0} (ground arith)
          (chosen (execute_parallel filter_parallel chunk plan) (execute_parallel-Keeps plan c))
      where
        chosen :
            (result : Option (DataChunk F))
            → KeepsIfAny chunk.size (plan_holds chunk.columns plan) result
            → Keeps chunk.size evaluator (or_fallback result (execute_fallback evaluator chunk))
        chosen none k = execute_fallback-Keeps chunk fresh evaluator
        chosen (some result) k =
            let same =
              keep-ext (plan_holds chunk.columns plan) evaluator 0 chunk.size
                (λ i h. agree i (omega arith)) in
            record { rows = k.rows ∙ same; counted = k.counted ∙ ap length same }
