-- ===== src/Tests/Pruning.antt =====
-- A chunk of three rows with the columns A = 5, 7, null and B = "x", "y", "x".
use query_engine.Prelude.{
  ℕ, zero, suc, ◌≡◌, refl, sym, ◌∙◌, ap, subst, String, false, Option, none, some, List, [], ◌∷◌,
  str_eq, if◌then◌else◌, arith, get_elem?,
}
use mathlib.Core.Option.{some-injective}
use query_engine.Prelude.Int.{pos}
use query_engine.Values.{Value, null, number, text, is_true, is_null}
use query_engine.Values.Ops.{eq, gt, and, or, regular}
use query_engine.Exprs.{
  Row, ColumnRef, BoundExpr, column_ref, literal, binary, between, in_list, nil, cons,
}
use query_engine.Exprs.Eval.{eval}
use query_engine.Pruning.{Chunk, build_chunk_zone_map}
use query_engine.Pruning.Compile.{ColumnResolver, compile_chunk_pruner}
use query_engine.Pruning.Sound.Summary.{Kind, numbers, texts, of_kind}
use query_engine.Pruning.Sound.Rows.{Typed, RowOf, OfKind, pruned_chunk-has_no_match}
use query_engine.Tests.Machine.{nat_js, nat_js-Ordered, nat_js-Converts, truthy_boolean}

abbrev column : String → ColumnRef
column name = record {
  table_alias = "T";
  column_name = name;
  column_index = pos 0;
  depth = 0;
  is_correlated = false;
}

abbrev chunk : Chunk ℕ
chunk = record {
  size = 3;
  columns = (number 5 ∷ number 7 ∷ null ∷ []) ∷ (text "x" ∷ text "y" ∷ text "x" ∷ []) ∷ [];
}

abbrev resolve : ColumnResolver
resolve r =
    if str_eq r.column_name "A" then some 0 else if str_eq r.column_name "B" then some 1 else none

abbrev second : Option ℕ → Value ℕ
second (some zero) = number 7
second (some (suc zero)) = text "y"
second _ = null

-- the row at position 1
abbrev row : Row ℕ
row r = second (resolve r)

-- (A > 7 AND B = "x") OR A IN (9, 4) OR A BETWEEN 8 AND 9
abbrev predicate : BoundExpr ℕ
predicate =
    binary or
      (binary or
        (binary and (binary gt (column_ref (column "A")) (literal (number 7)))
          (binary eq (column_ref (column "B")) (literal (text "x"))))
        (in_list false (column_ref (column "A"))
          (cons (literal (number 9)) (cons (literal (number 4)) nil))))
      (between false (column_ref (column "A")) (literal (number 8)) (literal (number 9)))

abbrev kinds : ℕ → Kind
kinds zero = numbers
kinds (suc i) = texts

chunk-Typed : Typed nat_js kinds chunk
unfolding of_kind is_null regular
chunk-Typed zero col e =
    subst (OfKind nat_js numbers) (some-injective _ _ e) (refl, (refl, (refl, tt)))
chunk-Typed (suc zero) col e =
    subst (OfKind nat_js texts) (some-injective _ _ e) (refl, (refl, (refl, tt)))
chunk-Typed (suc (suc i)) col e = cc

second-at :
    (i : ℕ) (col : List (Value ℕ))
    → get_elem? chunk.columns i ≡ some col
    → get_elem? col 1 ≡ some (second (some i))
second-at zero col e = ap (λ l. get_elem? l 1) (sym (some-injective _ _ e))
second-at (suc zero) col e = ap (λ l. get_elem? l 1) (sym (some-injective _ _ e))
second-at (suc (suc i)) col e = cc

row-RowOf : RowOf resolve chunk 1 row
row-RowOf ref i col r e = second-at i col e ∙ ap (λ o. some (second o)) (sym r)

pruned_chunk-has_no_match_example : is_true (eval nat_js row predicate) ≡ false
unfolding compile_chunk_pruner build_chunk_zone_map eval regular
pruned_chunk-has_no_match_example =
    pruned_chunk-has_no_match nat_js-Ordered nat_js-Converts truthy_boolean resolve chunk kinds 1
      row predicate _ chunk-Typed row-RowOf (omega arith)
      ((((tt, tt), (tt, tt)), tt), (refl, refl, refl))
      ((((tt, refl), (tt, refl)), (refl, (refl, tt))), (tt, refl, refl)) refl refl
