-- ===== src/Pruning/Sound/Column.antt =====
-- A comparison of a column with a literal, against the column's zone.
use query_engine.Prelude.{
  ℕ, ◌≡◌, Bool, true, false, ◌||◌, Option, none, some, arith, Bool-cases, Option-cases, inl, inr,
  get_elem?,
}
use query_engine.Values.{Value, Js, null, boolean, is_null, is_true, is_false}
use query_engine.Values.Ops.{
  BinaryOp, eq, ne, lt, gt, le, ge, binary_value_op, comparison, lifted, to_num, regular,
}
use query_engine.Exprs.{Row, ColumnRef}
use query_engine.Exprs.Eval.{apply_binary}
use query_engine.Pruning.{ValueRange, ColumnZoneMap, ChunkZoneMap}
use query_engine.Pruning.Rules.{RangeRule, range_rule, flipped_op, compare_comparable, is_nan}
use query_engine.Pruning.Compile.{
  ColumnResolver, null_only_truth, compare_zone, compare_range, at_column,
}
use query_engine.Pruning.Truth.{TruthSet}
use query_engine.Pruning.Order.{Ordered}
use query_engine.Pruning.Order.Ranges.{InRange, range_rule-holds, comparison_test}
use query_engine.Pruning.Sound.Logic.{Covers, Covers-any}

-- A value that a column's zone allows: between the ends, as the pruner compares.
pub record InZone {F : Type 0} (js : Js F) (z : ColumnZoneMap F) (v : Value F) : Type 0 where
  pub nulls : is_null v ≡ true → z.has_nulls ≡ true
  pub values :
      is_null v ≡ false
      → (r : ValueRange F) × (z.range ≡ some r)
        × InRange js (to_num js r.min) (to_num js r.max) (to_num js v)

-- A row of a chunk: each resolved column's value is in the column's zone.
abbrev pub RowInZone : {F : Type 0} → Js F → ColumnResolver → ChunkZoneMap F → Row F → Type 0
RowInZone {F} js resolve z row =
    (ref : ColumnRef) (i : ℕ) (c : ColumnZoneMap F)
    → resolve ref ≡ some i
    → get_elem? z.columns i ≡ some c
    → InZone js c (row ref)

module _ {F : Type 0} {js : Js F} (o : Ordered js) where
  comparison-value :
      (op : BinaryOp) (rule : RangeRule)
      → range_rule op ≡ some rule
      → (v c : Value F) → is_null v ≡ false
      → is_null c ≡ false
      → apply_binary (binary_value_op js op) v c
        ≡ boolean (comparison_test js op (to_num js v) (to_num js c))
  unfolding range_rule apply_binary binary_value_op
  comparison-value eq rule e v c p q = rw (p, q)
  comparison-value ne rule e v c p q = rw (p, q)
  comparison-value lt rule e v c p q = rw (p, q)
  comparison-value gt rule e v c p q = rw (p, q)
  comparison-value le rule e v c p q = rw (p, q)
  comparison-value ge rule e v c p q = rw (p, q)
  comparison-value _ rule e v c p q = cc

  comparison-null :
      (op : BinaryOp) (rule : RangeRule)
      → range_rule op ≡ some rule
      → (v c : Value F) → is_null v ≡ true
      → apply_binary (binary_value_op js op) v c ≡ null
  unfolding range_rule apply_binary binary_value_op
  comparison-null eq rule e v c p = rw p
  comparison-null ne rule e v c p = rw p
  comparison-null lt rule e v c p = rw p
  comparison-null gt rule e v c p = rw p
  comparison-null le rule e v c p = rw p
  comparison-null ge rule e v c p = rw p
  comparison-null _ rule e v c p = cc

  pub boolean-Covers :
      (t : TruthSet) (b : Bool)
      → (b ≡ true → t.may_true ≡ true)
      → (b ≡ false → t.may_false ≡ true)
      → Covers {F = F} t (boolean b)
  unfolding is_true is_false is_null
  boolean-Covers t b p q = record {
    on_true = λ h. ground arith;
    on_false = λ h. ground arith;
    on_null = λ h. ground arith;
    on_other = λ h. ground arith;
  }

  pub null-Covers : (t : TruthSet) → t.may_unknown ≡ true → Covers {F = F} t null
  unfolding is_true is_false is_null
  null-Covers t p = record {
    on_true = λ h. cc;
    on_false = λ h. cc;
    on_null = λ h. p;
    on_other = λ h. cc;
  }

  compare_range-value :
      (op : BinaryOp) (rule : RangeRule)
      → range_rule op ≡ some rule
      → (v c : Value F) (z : ColumnZoneMap F) → is_null v ≡ false
      → is_null c ≡ false
      → regular js (to_num js c) ≡ true
      → (r : ValueRange F) → InRange js (to_num js r.min) (to_num js r.max) (to_num js v)
      → Covers
          (compare_range js (to_num js c) rule z (some r))
          (apply_binary (binary_value_op js op) v c)
  unfolding compare_range
  compare_range-value op rule e v c z p q n r in_range =
      let lo = compare_comparable js (to_num js r.min) (to_num js c) in
      let hi = compare_comparable js (to_num js r.max) (to_num js c) in
      elim (Bool-cases (is_nan lo || is_nan hi)) [
        | inl m ↦ rw m (Covers-any _)
        | inr m ↦
            let k =
              range_rule-holds o _ _ _ (to_num js c) in_range (ground arith) (ground arith) n op
                rule e in
            rw (m, comparison-value op rule e v c p q)
              (boolean-Covers _ _ k.holds_true k.holds_false)
      ]

  may_unknown-compare_range :
      (c : Value F) (rule : RangeRule) (z : ColumnZoneMap F) (range : Option (ValueRange F))
      → z.has_nulls ≡ true
      → (compare_range js c rule z range).may_unknown ≡ true
  unfolding compare_range null_only_truth
  may_unknown-compare_range c rule z none h = h
  may_unknown-compare_range c rule z (some r) h = ground arith

  compare_zone-value :
      (op : BinaryOp) (rule : RangeRule)
      → range_rule op ≡ some rule
      → (v c : Value F) (z : ColumnZoneMap F) → is_null v ≡ false
      → is_null c ≡ false
      → regular js (to_num js c) ≡ true
      → InZone js z v
      → Covers (compare_zone js (to_num js c) rule z) (apply_binary (binary_value_op js op) v c)
  unfolding compare_zone
  compare_zone-value op rule e v c z p q n inz =
      let (r, known, in_range) = inz.values p in
      rw known (compare_range-value op rule e v c z p q n r in_range)

  pub compare_zone-Covers :
      (op : BinaryOp) (rule : RangeRule)
      → range_rule op ≡ some rule
      → (v c : Value F) (z : ColumnZoneMap F) → is_null c ≡ false
      → regular js (to_num js c) ≡ true
      → InZone js z v
      → Covers (compare_zone js (to_num js c) rule z) (apply_binary (binary_value_op js op) v c)
  unfolding compare_zone
  compare_zone-Covers op rule e v c z q n inz = elim (Bool-cases (is_null v)) [
    | inl p ↦
        rw (comparison-null op rule e v c p)
          (null-Covers _ (may_unknown-compare_range (to_num js c) rule z z.range (inz.nulls p)))
    | inr p ↦ compare_zone-value op rule e v c z p q n inz
  ]

  pub at_column-Covers :
      (f : ColumnZoneMap F → TruthSet) (i : ℕ) (z : ChunkZoneMap F) (v : Value F)
      → ((c : ColumnZoneMap F) → get_elem? z.columns i ≡ some c → Covers (f c) v)
      → Covers (at_column f i z) v
  unfolding at_column
  at_column-Covers f i z v h = elim (Option-cases (get_elem? z.columns i)) [
    | inl e ↦ rw e (Covers-any v)
    | inr (c, e) ↦ rw e (h c e)
  ]

  pub comparison-flip :
      (op : BinaryOp) (rule : RangeRule)
      → range_rule (flipped_op op) ≡ some rule
      → (v c : Value F)
      → apply_binary (binary_value_op js op) c v
        ≡ apply_binary (binary_value_op js (flipped_op op)) v c
  unfolding range_rule flipped_op apply_binary binary_value_op comparison lifted
  comparison-flip eq rule e v c = ground (arith, o.same_sym (to_num js c) (to_num js v))
  comparison-flip ne rule e v c = ground (arith, o.same_sym (to_num js c) (to_num js v))
  comparison-flip lt rule e v c = ground arith
  comparison-flip gt rule e v c = ground arith
  comparison-flip le rule e v c = ground arith
  comparison-flip ge rule e v c = ground arith
  comparison-flip _ rule e v c = cc
