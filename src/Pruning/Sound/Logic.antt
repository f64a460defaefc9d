-- ===== src/Pruning/Sound/Logic.antt =====
-- Truth sets and the values that they hold.
use query_engine.Prelude.{◌≡◌, refl, Bool, true, false, ◌&&◌, ◌||◌, none, some, arith}
use query_engine.Values.{Value, Js, boolean, is_null, is_true, is_false}
use query_engine.Values.Ops.{and_value, or_value, unary_value_op, not_op}
use query_engine.Exprs.Eval.{apply_unary}
use query_engine.Pruning.{ChunkZoneMap}
use query_engine.Pruning.Compile.{ZoneEvaluator, run, combine, negate_evaluator}
use query_engine.Pruning.Truth.{TruthSet, any_truth, kleene_not, kleene_and, kleene_or}

-- A value that is neither a Boolean nor null counts as any of true and false.
pub record Covers {F : Type 0} (t : TruthSet) (v : Value F) : Type 0 where
  pub on_true : is_true v ≡ true → t.may_true ≡ true
  pub on_false : is_false v ≡ true → t.may_false ≡ true
  pub on_null : is_null v ≡ true → t.may_unknown ≡ true
  pub on_other : (is_true v || is_false v || is_null v) ≡ false → (t.may_true && t.may_false) ≡ true

pub Covers-any : {F : Type 0} (v : Value F) → Covers any_truth v
Covers-any v = record {
  on_true = λ h. refl;
  on_false = λ h. refl;
  on_null = λ h. refl;
  on_other = λ h. refl;
}

module _ {F : Type 0} (a b : TruthSet) (v w : Value F) (ca : Covers a v) (cb : Covers b w) where
  pub kleene_and-Covers : Covers (kleene_and a b) (and_value v w)
  unfolding kleene_and and_value is_null is_true is_false
  kleene_and-Covers = record {
    on_true = λ h. ground arith;
    on_false = λ h. ground arith;
    on_null = λ h. ground arith;
    on_other = λ h. ground arith;
  }

  pub kleene_or-Covers : Covers (kleene_or a b) (or_value v w)
  unfolding kleene_or or_value is_null is_true is_false
  kleene_or-Covers = record {
    on_true = λ h. ground arith;
    on_false = λ h. ground arith;
    on_null = λ h. ground arith;
    on_other = λ h. ground arith;
  }

pub kleene_not-Covers :
    {F : Type 0} (js : Js F) (a : TruthSet) (v : Value F)
    → ((b : Bool) → js.truthy (boolean b) ≡ b)
    → Covers a v
    → Covers (kleene_not a) (apply_unary (unary_value_op js not_op) v)
unfolding kleene_not apply_unary unary_value_op is_null is_true is_false
kleene_not-Covers js a v truthy c = record {
  on_true = λ h. ground (arith, truthy true, truthy false);
  on_false = λ h. ground (arith, truthy true, truthy false);
  on_null = λ h. ground (arith, truthy true, truthy false);
  on_other = λ h. ground (arith, truthy true, truthy false);
}

module _ {F : Type 0} (z : ChunkZoneMap F) where
  pub run-combine_and :
      (l r : ZoneEvaluator F) (v w : Value F)
      → Covers (run l z) v
      → Covers (run r z) w
      → Covers (run (combine kleene_and l r) z) (and_value v w)
  unfolding combine run
  run-combine_and none none v w p q = Covers-any _
  run-combine_and (some f) r v w p q = kleene_and-Covers _ _ v w p q
  run-combine_and none (some g) v w p q = kleene_and-Covers _ _ v w p q

  pub run-combine_or :
      (l r : ZoneEvaluator F) (v w : Value F)
      → Covers (run l z) v
      → Covers (run r z) w
      → Covers (run (combine kleene_or l r) z) (or_value v w)
  unfolding combine run
  run-combine_or none none v w p q = Covers-any _
  run-combine_or (some f) r v w p q = kleene_or-Covers _ _ v w p q
  run-combine_or none (some g) v w p q = kleene_or-Covers _ _ v w p q

  pub run-negate :
      (js : Js F) (e : ZoneEvaluator F) (v : Value F)
      → ((b : Bool) → js.truthy (boolean b) ≡ b)
      → Covers (run e z) v
      → Covers (run (negate_evaluator e) z) (apply_unary (unary_value_op js not_op) v)
  unfolding negate_evaluator run
  run-negate js none v truthy c = Covers-any _
  run-negate js (some f) v truthy c = kleene_not-Covers js _ v truthy c
