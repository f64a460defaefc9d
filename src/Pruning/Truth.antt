-- ===== src/Pruning/Truth.antt =====
-- The sets of truth values of src/execution/zone-map-pruner.ts. The source keeps such a set as the
-- bits IS_TRUE, IS_FALSE and IS_UNKNOWN of a number; here it is three flags.
use query_engine.Prelude.{Bool, true, false, ◌&&◌, ◌||◌}

pub record TruthSet : Type 0 where
  pub may_true : Bool
  pub may_false : Bool
  pub may_unknown : Bool

abbrev pub truth_of : Bool → Bool → Bool → TruthSet
truth_of t f u = record { may_true = t; may_false = f; may_unknown = u }

abbrev pub any_truth : TruthSet
any_truth = truth_of true true true

abbrev pub no_truth : TruthSet
no_truth = truth_of false false false

unfoldable pub kleene_not : TruthSet → TruthSet
kleene_not a = truth_of a.may_false a.may_true a.may_unknown

unfoldable pub kleene_and : TruthSet → TruthSet → TruthSet
kleene_and a b = truth_of (a.may_true && b.may_true) (a.may_false || b.may_false) (
    (a.may_unknown && (b.may_true || b.may_unknown))
    || (b.may_unknown && (a.may_true || a.may_unknown)))

unfoldable pub kleene_or : TruthSet → TruthSet → TruthSet
kleene_or a b = truth_of (a.may_true || b.may_true) (a.may_false && b.may_false) (
    (a.may_unknown && (b.may_false || b.may_unknown))
    || (b.may_unknown && (a.may_false || a.may_unknown)))
