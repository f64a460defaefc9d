-- ===== src/Execution/Filter/Analyze/Sound.antt =====
-- The plans of `_analyze` in src/execution/operators/filter.ts against the value of the predicate.
use mathlib.Core.Option.{some-injective}
use query_engine.Prelude.{
  ℕ, String, ◌≡◌, refl, sym, subst, ap, ap₂, ◌∙◌, Bool, true, false, not, ◌&&◌, ◌||◌, Option, none,
  some, Option-cases, inl, inr, arith,
}
use query_engine.Values.{Value, Js, is_true}
use query_engine.Values.Ops.{BinaryOp, eq, lt, gt, le, ge, and, or, binary_value_op}
use query_engine.Exprs.{ColumnRef, Row, BoundExpr, column_ref, literal, binary, between}
use query_engine.Exprs.Eval.{eval, apply_binary, between_value}
use query_engine.Execution.Columns.{DataType, ColumnMapping, optional_column_index}
use query_engine.Execution.Filter.{
  FilterOperation, Leaf, simple, between_leaf, FilterPlan, leaf_plan, and_plan, or_plan,
}
use query_engine.Execution.Filter.Analyze.{
  op_to_filter, extract_column_and_literal, extract_literal_value, analyze_comparison,
  analyze_between, analyze_logical, analyze, compare_column,
}
use query_engine.Execution.Filter.Analyze.Plans.{
  filter_op, is_column, extracted, filter_op-inverse, compare_column-some, analyze_between-some,
}
use query_engine.Execution.Filter.Analyze.Truth.{
  is_logical, is_true-and, is_true-or, and-is_logical, or-is_logical, comparison-is_logical,
  between-is_logical,
}

module _ {F : Type 0} (js : Js F) where
  -- The test that a leaf stands for, on the value of its column.
  unfoldable pub leaf_holds : Leaf F → Value F → Bool
  unfolding is_true
  leaf_holds (simple operation v) x =
      is_true (apply_binary (binary_value_op js (filter_op operation)) x v)
  leaf_holds (between_leaf low high) x = is_true (between_value js false x low high)

  -- The plan on a row whose column at `k` has the value `cells k`.
  abbrev pub plan_on : (ℕ → Value F) → FilterPlan F → Bool
  plan_on cells (leaf_plan index leaf) = leaf_holds leaf (cells index)
  plan_on cells (and_plan l r) = plan_on cells l && plan_on cells r
  plan_on cells (or_plan l r) = plan_on cells l || plan_on cells r

-- No comparison has a column on its right side, and no BETWEEN is negated.
abbrev pub plain : {F : Type 0} → BoundExpr F → Bool
plain (binary and l r) = plain l && plain r
plain (binary or l r) = plain l && plain r
plain (binary op l r) = not (is_column r)
plain (between negated e lo hi) = not negated
plain e = true

module _ {F : Type 0} (js : Js F) (upper : String → String) (data_type : ColumnRef → DataType)
    (can_parallelize : FilterOperation → DataType → Bool) (mapping : Option ColumnMapping)
    (row : Row F) (cells : ℕ → Value F)
    (found : (c : ColumnRef) (k : ℕ)
      → optional_column_index upper c mapping ≡ some k
      → row c ≡ cells k) where
  abbrev pub planned : BoundExpr F → Option (FilterPlan F)
  planned = analyze upper data_type can_parallelize mapping

  between_sound :
      (c : ColumnRef) (lo hi : BoundExpr F) (plan : FilterPlan F)
      → analyze_between upper data_type can_parallelize mapping (column_ref c) lo hi ≡ some plan
      → plan_on js cells plan ≡ is_true (eval js row (between false (column_ref c) lo hi))
  unfolding leaf_holds eval
  between_sound c lo hi plan p =
      let (k, i, el, eh, e) =
        analyze_between-some upper data_type can_parallelize mapping c lo hi plan p in
      let a = extract_literal_value lo in
      let b = extract_literal_value hi in
      let bounds : is_true (between_value js false (cells k) a b)
          ≡ is_true (eval js row (between false (column_ref c) (literal a) (literal b))) =
        ap (λ x. is_true (between_value js false x a b)) (sym (found c k i)) in
      subst (λ z. plan_on js cells z ≡ is_true (eval js row (between false (column_ref c) lo hi))) e
        (bounds
          ∙ ap₂ (λ x y. is_true (eval js row (between false (column_ref c) x y))) (sym el) (sym eh))

  column_sound :
      (op : BinaryOp) (operation : FilterOperation) (c : ColumnRef) (v : Value F)
      (plan : FilterPlan F)
      → filter_op operation ≡ op
      → compare_column upper data_type can_parallelize mapping operation (some c) v ≡ some plan
      → plan_on js cells plan ≡ is_true (eval js row (binary op (column_ref c) (literal v)))
  unfolding leaf_holds eval
  column_sound op operation c v plan f p =
      let (k, i, e) =
        compare_column-some upper data_type can_parallelize mapping operation c v plan p in
      subst (λ z. plan_on js cells z ≡ is_true (eval js row (binary op (column_ref c) (literal v))))
        e (ap₂ (λ o x. is_true (apply_binary (binary_value_op js o) x v)) f (sym (found c k i)))

  compare_sound :
      (op : BinaryOp) (l r : BoundExpr F) (plan : FilterPlan F)
      → is_column r ≡ false
      → analyze_comparison upper data_type can_parallelize mapping op l r ≡ some plan
      → plan_on js cells plan ≡ is_true (eval js row (binary op l r))
  unfolding analyze_comparison extract_column_and_literal leaf_holds eval
  compare_sound op l r plan h p = elim (Option-cases (op_to_filter op)) [
    | inl n ↦ cc (rw n at p)
    | inr (operation, e) ↦ elim (extracted l r h) [
      | inl (c, v, el, er) ↦
          let q : compare_column upper data_type can_parallelize mapping operation (some c) v
              ≡ some plan =
            rw (e, el, er) at p in
          column_sound op operation c v plan (filter_op-inverse op operation e) q
          ∙ ap₂ (λ x y. is_true (eval js row (binary op x y))) (sym el) (sym er)
      | inr n ↦ cc (rw (e, n) at p)
    ]
  ]

  both_planned-and :
      (l r : BoundExpr F) (plan : FilterPlan F)
      → planned (binary and l r) ≡ some plan
      → (pl : FilterPlan F) × (pr : FilterPlan F) × (planned l ≡ some pl)
        × (planned r ≡ some pr)
        × (and_plan pl pr ≡ plan)
  unfolding analyze
  both_planned-and l r plan p = elim (Option-cases (planned l)) [
    | inl n ↦ cc (rw n at p)
    | inr (pl, el) ↦ elim (Option-cases (planned r)) [
      | inl n ↦ cc (rw (el, n) at p)
      | inr (pr, er) ↦ (pl, pr, el, er, some-injective _ _ (rw (el, er) at p))
    ]
  ]

  both_planned-or :
      (l r : BoundExpr F) (plan : FilterPlan F)
      → planned (binary or l r) ≡ some plan
      → (pl : FilterPlan F) × (pr : FilterPlan F) × (planned l ≡ some pl)
        × (planned r ≡ some pr)
        × (or_plan pl pr ≡ plan)
  unfolding analyze
  both_planned-or l r plan p = elim (Option-cases (planned l)) [
    | inl n ↦ cc (rw n at p)
    | inr (pl, el) ↦ elim (Option-cases (planned r)) [
      | inl n ↦ cc (rw (el, n) at p)
      | inr (pr, er) ↦ (pl, pr, el, er, some-injective _ _ (rw (el, er) at p))
    ]
  ]

  logical-plan :
      (e : BoundExpr F) (plan : FilterPlan F)
      → planned e ≡ some plan
      → is_logical (eval js row e) ≡ true
  unfolding analyze analyze_comparison op_to_filter analyze_between eval
  logical-plan (binary and l r) plan p = and-is_logical (eval js row l) (eval js row r)
  logical-plan (binary or l r) plan p = or-is_logical (eval js row l) (eval js row r)
  logical-plan (binary eq l r) plan p =
      comparison-is_logical js js.strict_equal (eval js row l) (eval js row r)
  logical-plan (binary lt l r) plan p =
      comparison-is_logical js js.less (eval js row l) (eval js row r)
  logical-plan (binary gt l r) plan p =
      comparison-is_logical js (λ a b. js.less b a) (eval js row l) (eval js row r)
  logical-plan (binary le l r) plan p =
      comparison-is_logical js js.less_equal (eval js row l) (eval js row r)
  logical-plan (binary ge l r) plan p =
      comparison-is_logical js (λ a b. js.less_equal b a) (eval js row l) (eval js row r)
  logical-plan (between negated e lo hi) plan p =
      between-is_logical js negated (eval js row e) (eval js row lo) (eval js row hi)
  logical-plan e plan p = cc

  -- A plan, on a row whose columns have the values that the references resolve to, passes exactly when
  -- its predicate is true, if no comparison has its column on the right and no BETWEEN is negated.
  pub analyze_sound :
      (e : BoundExpr F) (plan : FilterPlan F)
      → planned e ≡ some plan
      → plain e ≡ true
      → plan_on js cells plan ≡ is_true (eval js row e)
  unfolding analyze analyze_comparison op_to_filter analyze_between eval
  analyze_sound (binary and l r) plan p h =
      let (pl, pr, el, er, e) = both_planned-and l r plan p in
      subst (λ z. plan_on js cells z ≡ is_true (eval js row (binary and l r))) e
        (ap₂ (λ a b. a && b) (analyze_sound l pl el (ground arith))
            (analyze_sound r pr er (ground arith))
          ∙ sym (
              is_true-and (eval js row l) (eval js row r) (logical-plan l pl el)
                (logical-plan r pr er)))
  analyze_sound (binary or l r) plan p h =
      let (pl, pr, el, er, e) = both_planned-or l r plan p in
      subst (λ z. plan_on js cells z ≡ is_true (eval js row (binary or l r))) e
        (ap₂ (λ a b. a || b) (analyze_sound l pl el (ground arith))
            (analyze_sound r pr er (ground arith))
          ∙ sym (is_true-or (eval js row l) (eval js row r)))
  analyze_sound (binary eq l r) plan p h = compare_sound eq l r plan (ground arith) p
  analyze_sound (binary lt l r) plan p h = compare_sound lt l r plan (ground arith) p
  analyze_sound (binary gt l r) plan p h = compare_sound gt l r plan (ground arith) p
  analyze_sound (binary le l r) plan p h = compare_sound le l r plan (ground arith) p
  analyze_sound (binary ge l r) plan p h = compare_sound ge l r plan (ground arith) p
  analyze_sound (between false (column_ref c) lo hi) plan p h = between_sound c lo hi plan p
  analyze_sound e plan p h = cc

  logical-no_plans :
      (op : BinaryOp)
      → analyze_logical {F = F} upper data_type can_parallelize mapping op none none ≡ none
  unfolding analyze_logical
  logical-no_plans and = refl
  logical-no_plans or = refl
  logical-no_plans op = refl

  -- The plan of a comparison whose column is on the right passes exactly when the comparison with its
  -- sides swapped is true.
  pub analyze-flipped :
      (op : BinaryOp) (v : Value F) (c : ColumnRef) (plan : FilterPlan F)
      → planned (binary op (literal v) (column_ref c)) ≡ some plan
      → plan_on js cells plan ≡ is_true (eval js row (binary op (column_ref c) (literal v)))
  unfolding analyze analyze_comparison extract_column_and_literal
  analyze-flipped op v c plan p =
      compare_sound op (column_ref c) (literal v) plan refl (rw (logical-no_plans op) at p)

  -- The plan of a negated BETWEEN passes exactly when the BETWEEN that is not negated is true.
  pub analyze-not_between :
      (e lo hi : BoundExpr F) (plan : FilterPlan F)
      → planned (between true e lo hi) ≡ some plan
      → plan_on js cells plan ≡ is_true (eval js row (between false e lo hi))
  unfolding analyze
  analyze-not_between e lo hi plan p = analyze_sound (between false e lo hi) plan p refl
