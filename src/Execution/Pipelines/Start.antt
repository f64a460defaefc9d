-- ===== src/Execution/Pipelines/Start.antt =====
-- `startReadyPipelines` of src/execution/scheduler.ts.
use query_engine.Prelude.{
  ℕ, suc, ◌≤◌, ◌≡◌, refl, sym, ap, ◌∙◌, Bool, true, false, not, ◌&&◌, ◌||◌, Option, some, List, [],
  ◌∷◌, length, ◌==◌, ==_iff, arith, Bool-cases, inl, inr, length-append,
}
use query_engine.Execution.Pipelines.Sets.{mem, insert, is_nil, mem-insert}
use query_engine.Execution.Pipelines.{Pipeline, PipelineGraph, is_done, running, with_state, put}
use query_engine.Execution.Pipelines.Invariant.{
  present, pends, runs, is_over, waits_for, feeds_to, Consistent,
}

abbrev pub startable : Option Pipeline → Bool
startable o = (pends o || runs o) && is_nil (waits_for o)

is_nil-eq : (js : List ℕ) → is_nil js ≡ true → js ≡ []
is_nil-eq [] h = refl
is_nil-eq (j ∷ js) h = cc h

pub is_nil-of : (js : List ℕ) → js ≡ [] → is_nil js ≡ true
is_nil-of js e = rw e refl

startable-state :
    (p : Pipeline) → startable (some p) ≡ true → (is_done p.state ≡ false) × (p.dependencies ≡ [])
startable-state p h = (ground arith, is_nil-eq p.dependencies (ground arith))

pub length-insert : (i : ℕ) (js : List ℕ) → length (insert i js) ≤ suc (length js)
length-insert i js = ground (arith, length-append js (i ∷ []))

module _ (needed : ℕ → List ℕ) (made : ℕ → Bool) (g : PipelineGraph) (ids : List ℕ)
    (ok : Consistent needed made g ids) (id : ℕ) (p : Pipeline) (e : g.pipelines id ≡ some p)
    (can : startable (some p) ≡ true) where
  abbrev pub m : PipelineGraph
  m = put id (with_state running p) g

  m-same :
      (x : ℕ)
      → (present (m.pipelines x) ≡ present (g.pipelines x))
        × (pends (m.pipelines x) ≡ (pends (g.pipelines x) && not (id == x)))
        × (runs (m.pipelines x) ≡ (runs (g.pipelines x) || (id == x)))
        × (is_over (m.pipelines x) ≡ is_over (g.pipelines x))
        × (feeds_to (m.pipelines x) ≡ feeds_to (g.pipelines x))
        × (waits_for (m.pipelines x) ≡ waits_for (g.pipelines x))
  m-same x = elim (Bool-cases (id == x)) [
    | inl s ↦
        let here = ap g.pipelines (sym ((==_iff id x).0 s)) ∙ e in
        rw (s, here) (refl, ground arith, ground arith, sym ((startable-state p can).0), refl, refl)
    | inr s ↦ rw s (refl, ground arith, ground arith, refl, refl, refl)
  ]

  pub start-same_over : (x : ℕ) → is_over (m.pipelines x) ≡ is_over (g.pipelines x)
  start-same_over x = (m-same x).3

  pub m-startable : (x : ℕ) → startable (g.pipelines x) ≡ true → startable (m.pipelines x) ≡ true
  m-startable x k = ground (arith, m-same x)

  here-free : (x : ℕ) → (id == x) ≡ true → waits_for (g.pipelines x) ≡ []
  here-free x s =
      ap waits_for (ap g.pipelines (sym ((==_iff id x).0 s)) ∙ e) ∙ (startable-state p can).1

  pub Consistent-started : Consistent needed made m (insert id ids)
  Consistent-started = record {
    kept = λ x k. (m-same x).0 ∙ ok.kept x k;
    bounded = λ x k. ok.bounded x (sym ((m-same x).0) ∙ k);
    awaited = λ x d k.
        let before = ok.awaited x d (sym (ap (mem d) ((m-same x).5)) ∙ k) in
        (
          (m-same d).0 ∙ before.0,
          (m-same d).3 ∙ before.1,
          ap (mem x) ((m-same d).4) ∙ before.2,
          before.3,
        );
    fed = λ x y k. (m-same y).0 ∙ ok.fed x y (sym (ap (mem y) ((m-same x).4)) ∙ k);
    clean = λ x k. ground (arith, ok.clean x, m-same x);
    started = λ x k. (m-same x).5 ∙ elim (Bool-cases (id == x)) [
      | inl s ↦ here-free x s
      | inr s ↦ ok.started x (ground (arith, m-same x))
    ];
    offered = λ x k n. ok.offered x (ground (arith, m-same x)) (sym ((m-same x).5) ∙ n);
    active =
        λ x. ground (arith, m-same x, ok.active x, mem-insert x id ids, ==_iff x id, ==_iff id x);
    met = λ x d k. ground (arith, ok.met x d k, m-same x, m-same d);
  }
