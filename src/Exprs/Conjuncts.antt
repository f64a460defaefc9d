-- ===== src/Exprs/Conjuncts.antt =====
-- src/binder/conjuncts.ts: a predicate taken apart at its ANDs, and put together again. An
-- absent predicate has no conjuncts; it is left out here.
use query_engine.Prelude.{
  ℕ, zero, suc, ◌+◌, ◌≤◌, ◌≡◌, refl, sym, ap, ◌∙◌, Bool, true, not, ◌&&◌, ◌||◌, Option, none, some,
  List, [], ◌∷◌, arith,
}
use mathlib.Core.Option.{some-injective}
use query_engine.Values.{Value, Js, is_null, is_false}
use query_engine.Values.Ops.{and, and_value, binary_value_op}
use query_engine.Exprs.{Row, BoundExpr, binary}
use query_engine.Exprs.Eval.{eval, apply_binary}

module _ {F : Type 0} where
  -- `isConjunction`, with the sides of the AND
  unfoldable pub conjunction_sides : BoundExpr F → Option (BoundExpr F × BoundExpr F)
  conjunction_sides (binary and l r) = some (l, r)
  conjunction_sides e = none

  abbrev pub split_next :
      BoundExpr F
      → Option (BoundExpr F × BoundExpr F)
      → (BoundExpr F → BoundExpr F → List (BoundExpr F))
      → List (BoundExpr F)
      → List (BoundExpr F)
  split_next e (some (l, r)) go_on rest = go_on l r
  split_next e none go_on rest = e ∷ rest

  -- The loop over `pending`, whose last element comes first here.
  unfoldable pub split_loop : ℕ → List (BoundExpr F) → List (BoundExpr F)
  unfolding conjunction_sides
  split_loop zero pending = []
  split_loop (suc fuel) [] = []
  split_loop (suc fuel) (e ∷ pending) =
      split_next e (conjunction_sides e) (λ l r. split_loop fuel (l ∷ r ∷ pending))
        (split_loop fuel pending)

  -- Every round takes a node of the predicate from `pending`.
  abbrev pub conjunction_size : BoundExpr F → ℕ
  conjunction_size (binary and l r) = suc (conjunction_size l + conjunction_size r)
  conjunction_size e = 1

  unfoldable pub split_conjuncts : BoundExpr F → List (BoundExpr F)
  unfolding split_loop
  split_conjuncts e = split_loop (conjunction_size e) (e ∷ [])

  unfoldable pub combine_from : BoundExpr F → List (BoundExpr F) → BoundExpr F
  combine_from acc [] = acc
  combine_from acc (p ∷ ps) = combine_from (binary and acc p) ps

  unfoldable pub combine_conjuncts : List (BoundExpr F) → Option (BoundExpr F)
  unfolding combine_from
  combine_conjuncts [] = none
  combine_conjuncts (p ∷ ps) = some (combine_from p ps)

&&_assoc : (a b c : Bool) → (a && (b && c)) ≡ ((a && b) && c)
&&_assoc a b c = ground arith

&&_true : (a : Bool) → (a && true) ≡ a
&&_true a = ground arith

conjunction_size-pos : {F : Type 0} (e : BoundExpr F) → 1 ≤ conjunction_size e
conjunction_size-pos (binary and l r) = omega arith
conjunction_size-pos e = ground arith

module _ {F : Type 0} (js : Js F) (row : Row F) where
  -- Neither false nor null, which is what AND asks of its sides
  unfoldable pub passes : Value F → Bool
  unfolding is_false is_null
  passes v = not (is_false v || is_null v)

  abbrev pub all_pass : List (BoundExpr F) → Bool
  all_pass [] = true
  all_pass (e ∷ es) = passes (eval js row e) && all_pass es

  and-passes :
      (l r : BoundExpr F)
      → passes (eval js row (binary and l r)) ≡ (passes (eval js row l) && passes (eval js row r))
  unfolding passes eval apply_binary binary_value_op and_value is_false is_null
  and-passes l r = ground arith

  total_size : List (BoundExpr F) → ℕ
  total_size [] = 0
  total_size (e ∷ es) = conjunction_size e + total_size es

  split_loop-all_pass :
      (fuel : ℕ) (pending : List (BoundExpr F))
      → total_size pending ≤ fuel
      → all_pass (split_loop fuel pending) ≡ all_pass pending
  unfolding split_loop conjunction_sides total_size
  split_loop-all_pass zero [] h = refl
  split_loop-all_pass zero (e ∷ pending) h = absurd (ground (arith, conjunction_size-pos e))
  split_loop-all_pass (suc fuel) [] h = refl
  split_loop-all_pass (suc fuel) (binary and l r ∷ pending) h =
      split_loop-all_pass fuel (l ∷ r ∷ pending) (omega arith)
      ∙ &&_assoc (passes (eval js row l)) (passes (eval js row r)) (all_pass pending)
      ∙ ap (◌&& all_pass pending) (sym (and-passes l r))
  split_loop-all_pass (suc fuel) (e ∷ pending) h =
      ap (passes (eval js row e) &&◌)
        (split_loop-all_pass fuel pending (omega (arith, conjunction_size-pos e)))

  split_conjuncts-all_pass :
      (e : BoundExpr F) → passes (eval js row e) ≡ all_pass (split_conjuncts e)
  unfolding split_conjuncts total_size
  split_conjuncts-all_pass e = sym (
      split_loop-all_pass (conjunction_size e) (e ∷ []) (omega arith)
      ∙ &&_true (passes (eval js row e)))

  combine_from-all_pass :
      (acc : BoundExpr F) (es : List (BoundExpr F))
      → passes (eval js row (combine_from acc es)) ≡ (passes (eval js row acc) && all_pass es)
  unfolding combine_from
  combine_from-all_pass acc [] = sym (&&_true (passes (eval js row acc)))
  combine_from-all_pass acc (e ∷ es) =
      combine_from-all_pass (binary and acc e) es
      ∙ ap (◌&& all_pass es) (and-passes acc e)
      ∙ sym (&&_assoc (passes (eval js row acc)) (passes (eval js row e)) (all_pass es))

  combine_conjuncts-all_pass :
      (es : List (BoundExpr F)) (e : BoundExpr F)
      → combine_conjuncts es ≡ some e
      → passes (eval js row e) ≡ all_pass es
  unfolding combine_conjuncts
  combine_conjuncts-all_pass [] e h = cc
  combine_conjuncts-all_pass (p ∷ ps) e h =
      ap (λ x. passes (eval js row x)) (sym (some-injective _ _ h)) ∙ combine_from-all_pass p ps

  -- On every row, a predicate is neither false nor null exactly if none of the conjuncts that it is
  -- split into is, and if predicates are combined to one, it is neither exactly if none of them is.
  pub all_pass-split_conjuncts :
      (e e' : BoundExpr F) (es : List (BoundExpr F))
      → combine_conjuncts es ≡ some e'
      → (passes (eval js row e) ≡ all_pass (split_conjuncts e))
        × (passes (eval js row e') ≡ all_pass es)
  all_pass-split_conjuncts e e' es h =
      (split_conjuncts-all_pass e, combine_conjuncts-all_pass es e' h)
