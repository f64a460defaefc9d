-- ===== src/Execution/Pipelines/Build.antt =====
-- The graphs that `createPipeline` and `addDependency` of src/execution/pipeline.ts make.
use query_engine.Prelude.{
  ℕ, suc, ◌<◌, ◌≡◌, refl, sym, ap, ◌∙◌, true, ◌||◌, Option, none, some, List, [], ◌∷◌, ◌==◌, ==_iff,
  arith, Bool-cases, Option-cases, inl, inr,
}
use query_engine.Execution.Pipelines.Sets.{mem, mem-insert}
use query_engine.Execution.Pipelines.{
  PipelineGraph, pipeline_graph, create_pipeline, add_dependency,
}
use query_engine.Execution.Pipelines.Invariant.{present, pends, waits_for, feeds_to}

pub data BuildStep : Type 0 where
  creates : BuildStep
  depends : ℕ → ℕ → BuildStep

abbrev pub and_then :
    Option PipelineGraph → (PipelineGraph → Option PipelineGraph) → Option PipelineGraph
and_then none k = none
and_then (some g) k = k g

-- The graph that these calls make out of `g`, none when one of them is an error.
abbrev pub build : List BuildStep → PipelineGraph → Option PipelineGraph
build [] g = some g
build (creates ∷ steps) g = build steps (create_pipeline g)
build (depends id other ∷ steps) g = and_then (add_dependency id other g) (build steps)

pub record Built (g : PipelineGraph) : Type 0 where
  pub bounded : (x : ℕ) → present (g.pipelines x) ≡ true → x < g.next_id
  pub awaited :
      (x d : ℕ)
      → mem d (waits_for (g.pipelines x)) ≡ true
      → (present (g.pipelines d) ≡ true) × (mem x (feeds_to (g.pipelines d)) ≡ true)
  pub fed : (x y : ℕ) → mem y (feeds_to (g.pipelines x)) ≡ true → present (g.pipelines y) ≡ true
  pub fresh : (x : ℕ) → pends (g.pipelines x) ≡ present (g.pipelines x)
  pub offered :
      (x : ℕ)
      → pends (g.pipelines x) ≡ true
      → waits_for (g.pipelines x) ≡ []
      → mem x g.ready_ids ≡ true

pub Built-empty : Built pipeline_graph
unfolding pipeline_graph
Built-empty = record {
  bounded = λ x k. cc k;
  awaited = λ x d k. cc k;
  fed = λ x y k. cc k;
  fresh = λ x. refl;
  offered = λ x k n. cc k;
}

absent : (g : PipelineGraph) → Built g → g.pipelines g.next_id ≡ none
absent g b = elim (Option-cases (g.pipelines g.next_id)) [
  | inl e ↦ e
  | inr (p, e) ↦ absurd (omega (arith, b.bounded g.next_id (ap present e)))
]

-- The new pipeline of `create_pipeline` is the only change.
module _ (g : PipelineGraph) (b : Built g) where
  abbrev m : PipelineGraph
  m = create_pipeline g

  created-same :
      (x : ℕ)
      → (present (m.pipelines x) ≡ (present (g.pipelines x) || (g.next_id == x)))
        × (pends (m.pipelines x) ≡ (pends (g.pipelines x) || (g.next_id == x)))
        × (waits_for (m.pipelines x) ≡ waits_for (g.pipelines x))
        × (feeds_to (m.pipelines x) ≡ feeds_to (g.pipelines x))
        × (mem x m.ready_ids ≡ ((x == g.next_id) || mem x g.ready_ids))
  unfolding create_pipeline
  created-same x = elim (Bool-cases (g.next_id == x)) [
    | inl s ↦
        let here = ap g.pipelines (sym ((==_iff g.next_id x).0 s)) ∙ absent g b in
        rw (s, here) (refl, refl, refl, refl, mem-insert x g.next_id g.ready_ids)
    | inr s ↦ rw s (ground arith, ground arith, refl, refl, mem-insert x g.next_id g.ready_ids)
  ]

  created-next : m.next_id ≡ suc g.next_id
  unfolding create_pipeline
  created-next = omega arith

  pub Built-create : Built m
  Built-create = record {
    bounded = λ x k. ground (arith, b.bounded x, created-same x, created-next, ==_iff g.next_id x);
    awaited = λ x d k.
        let before = b.awaited x d (sym (ap (mem d) ((created-same x).2)) ∙ k) in
        ((created-same d).0 ∙ ground (arith, before), ap (mem x) ((created-same d).3) ∙ before.1);
    fed = λ x y k.
        let before = b.fed x y (sym (ap (mem y) ((created-same x).3)) ∙ k) in
        (created-same y).0 ∙ ground (arith, before);
    fresh = λ x. ground (arith, created-same x, b.fresh x);
    offered = λ x k n.
        let free = sym ((created-same x).2) ∙ n in
        let before = λ (h : pends (g.pipelines x) ≡ true). (b.offered x h free) in
        ground (arith, created-same x, before, ==_iff g.next_id x, ==_iff x g.next_id);
  }
