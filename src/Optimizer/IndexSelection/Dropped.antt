-- ===== src/Optimizer/IndexSelection/Dropped.antt =====
-- Where src/optimizer/passes/index-selection.ts loses a conjunct.
use query_engine.Prelude.{
  ◌≡◌, refl, String, str_eq, eq_iff, Bool, true, false, not, ◌&&◌, Option, none, some, List, [],
  ◌∷◌, if◌then◌else◌, arith, Bool-cases, inl, inr,
}
use query_engine.Values.{Value, Js}
use query_engine.Values.Ops.{BinaryOp, and}
use query_engine.Exprs.{ColumnRef, BoundExpr, column_ref, literal, binary}
use query_engine.Exprs.Conjuncts.{
  split_conjuncts, combine_conjuncts, split_loop, conjunction_sides, conjunction_size,
}
use query_engine.Optimizer.IndexSelection.{
  ConjunctType, type_of, alias_or, eq_type, gt_type, gte_type, lt_type, lte_type, ColumnBounds,
  ColumnStats, Numbers, ScanNode, Rewritten, IndexScan, scan_only, no_bounds, update_bounds,
  add_bound, collect_bounds, best_bounds, with_best, too_many, rewrite_filter, residual_from,
  estimate_range_selectivity, analyze_conjunct, index_scan,
}

-- Two bounds of one kind: two points, two lower ends or two upper ends.
unfoldable pub same_bound : ConjunctType → ConjunctType → Bool
same_bound eq_type eq_type = true
same_bound gt_type gt_type = true
same_bound gt_type gte_type = true
same_bound gte_type gt_type = true
same_bound gte_type gte_type = true
same_bound lt_type lt_type = true
same_bound lt_type lte_type = true
same_bound lte_type lt_type = true
same_bound lte_type lte_type = true
same_bound _ _ = false

conjunction_sides-type_of :
    {F : Type 0} (op : BinaryOp) (t : ConjunctType) (l r : BoundExpr F)
    → type_of op false ≡ some t
    → conjunction_sides (binary op l r) ≡ none
unfolding conjunction_sides
conjunction_sides-type_of op t l r h = ground arith

conjunction_size-type_of :
    {F : Type 0} (op : BinaryOp) (t : ConjunctType) (l r : BoundExpr F)
    → type_of op false ≡ some t
    → conjunction_size (binary op l r) ≡ 1
conjunction_size-type_of op t l r h = ground arith

split_conjuncts-one :
    {F : Type 0} (op : BinaryOp) (t : ConjunctType) (l r : BoundExpr F)
    → type_of op false ≡ some t
    → split_conjuncts (binary op l r) ≡ binary op l r ∷ []
unfolding split_conjuncts split_loop
split_conjuncts-one op t l r h =
    rw (conjunction_size-type_of op t l r h, conjunction_sides-type_of op t l r h) refl

split_conjuncts-two :
    {F : Type 0} (op1 op2 : BinaryOp) (t1 t2 : ConjunctType) (l1 r1 l2 r2 : BoundExpr F)
    → type_of op1 false ≡ some t1
    → type_of op2 false ≡ some t2
    → split_conjuncts (binary and (binary op1 l1 r1) (binary op2 l2 r2))
      ≡ binary op1 l1 r1 ∷ binary op2 l2 r2 ∷ []
unfolding split_conjuncts split_loop conjunction_sides
split_conjuncts-two op1 op2 t1 t2 l1 r1 l2 r2 h1 h2 =
    rw
      (
        conjunction_size-type_of op1 t1 l1 r1 h1,
        conjunction_size-type_of op2 t2 l2 r2 h2,
        conjunction_sides-type_of op1 t1 l1 r1 h1,
        conjunction_sides-type_of op2 t2 l2 r2 h2,
      )
      refl

module _ {F : Type 0} (js : Js F) (math_max math_min : Value F → Value F → Value F) (c : Numbers F)
    (upper : String → String) (has_index : String → Bool)
    (stats : String → Option (ColumnStats F)) where
  update_bounds-twice :
      (column : String) (x y : Value F) (t1 t2 : ConjunctType)
      → same_bound t1 t2 ≡ true
      → update_bounds 1
          (record { column = column; value = y; conjunct_type = t2 })
          (update_bounds 0 (record { column = column; value = x; conjunct_type = t1 }) no_bounds)
        ≡ record (update_bounds 0
            (record { column = column; value = y; conjunct_type = t2 })
            no_bounds) { conjunct_indices = 0 ∷ 1 ∷ [] }
  unfolding same_bound
  update_bounds-twice column x y t1 t2 h = ground arith

  planned :
      String
      → String
      → BoundExpr F
      → List (BoundExpr F)
      → List (String × ColumnBounds F)
      → Rewritten F
  planned table alias condition conjuncts bounds =
      with_best upper table alias condition conjuncts (
        best_bounds has_index (λ column b. too_many js math_max math_min c b (stats column)) bounds)

  update_bounds-indices :
      (column : String) (y : Value F) (t : ConjunctType)
      → (update_bounds 0
          (record { column = column; value = y; conjunct_type = t })
          no_bounds).conjunct_indices
        ≡ 0 ∷ []
  update_bounds-indices column y t = ground arith

  with_best-alone :
      (table alias column : String) (b : ColumnBounds F) (e1 e2 whole : BoundExpr F) (chosen : Bool)
      (s : IndexScan F)
      → b.conjunct_indices ≡ 0 ∷ []
      → with_best upper table alias e2 (e2 ∷ []) (if chosen then some (column, b) else none)
        ≡ scan_only s
      → with_best upper table alias whole
          (e1 ∷ e2 ∷ [])
          (if chosen then some (column, record b { conjunct_indices = 0 ∷ 1 ∷ [] }) else none)
        ≡ scan_only s
  unfolding residual_from combine_conjuncts index_scan
  with_best-alone table alias column b e1 e2 whole true s h e =
      elim (Bool-cases (str_eq column "")) [
        | inl q ↦ cc (rw q at e)
        | inr q ↦ rw q (rw (q, h) at e)
      ]
  with_best-alone table alias column b e1 e2 whole false s h e = cc e

  planned_twice :
      (table alias column : String) (x y : Value F) (t1 t2 : ConjunctType)
      (e1 e2 whole : BoundExpr F) (s : IndexScan F)
      → same_bound t1 t2 ≡ true
      → planned table alias e2
          (e2 ∷ [])
          (add_bound 0 (record { column = column; value = y; conjunct_type = t2 }) [])
        ≡ scan_only s
      → planned table alias whole (e1 ∷ e2 ∷ []) (
          add_bound 1
            (record { column = column; value = y; conjunct_type = t2 })
            (add_bound 0 (record { column = column; value = x; conjunct_type = t1 }) []))
        ≡ scan_only s
  unfolding planned add_bound best_bounds residual_from combine_conjuncts index_scan
      estimate_range_selectivity
  planned_twice table alias column x y t1 t2 e1 e2 whole s h e =
      let b =
        update_bounds 0 (record { column = column; value = y; conjunct_type = t2 }) no_bounds in
      rw ((eq_iff column column).1 refl, update_bounds-twice column x y t1 t2 h)
        (with_best-alone table alias column b e1 e2 whole
          (has_index column && not (too_many js math_max math_min c b (stats column))) s
          (update_bounds-indices column y t2) e)

  -- Two bounds of one kind on a column are two points, two lower ends or two upper ends. Whenever the later
  -- of two such bounds alone is planned as an index scan with no filter, so is the conjunction of the
  -- two, with the same scan: the earlier bound is neither in the scan nor in a filter.
  pub rewrite_filter-later_bound :
      (op1 op2 : BinaryOp) (t1 t2 : ConjunctType) (r : ColumnRef) (x y : Value F) (scan : ScanNode)
      (s : IndexScan F)
      → type_of op1 false ≡ some t1
      → type_of op2 false ≡ some t2
      → same_bound t1 t2 ≡ true
      → rewrite_filter js math_max math_min c upper has_index stats
          (binary op2 (column_ref r) (literal y))
          scan
        ≡ scan_only s
      → rewrite_filter js math_max math_min c upper has_index stats
          (binary and
            (binary op1 (column_ref r) (literal x))
            (binary op2 (column_ref r) (literal y)))
          scan
        ≡ scan_only s
  unfolding rewrite_filter collect_bounds analyze_conjunct planned
  rewrite_filter-later_bound op1 op2 t1 t2 r x y scan s h1 h2 h e =
      let alias = alias_or scan.alias scan.table in
      let column : BoundExpr F = column_ref r in
      let e1 = binary op1 column (literal x) in
      let e2 = binary op2 column (literal y) in
      let alone = rw (split_conjuncts-one op2 t2 column (literal y) h2, h2) at e in
      rw (split_conjuncts-two op1 op2 t1 t2 column (literal x) column (literal y) h1 h2, h1, h2)
        (elim (Bool-cases
          (not (str_eq r.table_alias "") && not (str_eq (upper r.table_alias) (upper alias)))) [
            | inl q ↦ cc (rw q at alone)
            | inr q ↦ rw q (
                planned_twice scan.table alias (upper r.column_name) x y t1 t2 e1 e2
                  (binary and e1 e2) s h (rw q at alone))
          ])
