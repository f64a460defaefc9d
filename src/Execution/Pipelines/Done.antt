-- ===== src/Execution/Pipelines/Done.antt =====
-- `markPipelineDone` of src/execution/pipeline.ts on a running pipeline.
use query_engine.Prelude.{
  ℕ, ◌<◌, ◌≡◌, refl, sym, subst, ap, ◌∙◌, Bool, true, false, not, ◌&&◌, ◌||◌, some, List, [], ◌==◌,
  ==_iff, arith, Bool-cases, Option-cases, inl, inr,
}
use query_engine.Execution.Pipelines.Sets.{mem, delete, mem-delete, is_nil-mem}
use query_engine.Execution.Pipelines.{
  Pipeline, PipelineGraph, PipelineState, is_pending, is_running, is_done, done, with_state, put,
  mark_pipeline_done,
}
use query_engine.Execution.Pipelines.Undone.{undone, count_false, count_false-less}
use query_engine.Execution.Pipelines.Release.{Freed, release-Freed}
use query_engine.Execution.Pipelines.Invariant.{
  present, pends, runs, is_over, waits_for, feeds_to, Consistent,
}

abbrev marked : PipelineGraph → ℕ → Pipeline → PipelineGraph
marked g id p = record (put id (with_state done p) g) { ready_ids = delete id g.ready_ids }

not_or : {a b : Bool} → a ≡ false → b ≡ false → (a || b) ≡ false
not_or h k = ground arith

is_running-not_done : (s : PipelineState) → is_running s ≡ true → is_done s ≡ false
is_running-not_done s h = ground arith

is_running-not_pending : (s : PipelineState) → is_running s ≡ true → false ≡ is_pending s
is_running-not_pending s h = ground arith

module _ (needed : ℕ → List ℕ) (made : ℕ → Bool) (g : PipelineGraph) (ids : List ℕ)
    (ok : Consistent needed made g ids) (id : ℕ) (p : Pipeline) (e : g.pipelines id ≡ some p)
    (running : mem id ids ≡ true) where
  abbrev m : PipelineGraph
  m = marked g id p

  p-runs : is_running p.state ≡ true
  p-runs = sym (ap runs e) ∙ ok.active id ∙ running

  still_ready :
      (x : ℕ)
      → pends (g.pipelines x) ≡ true
      → waits_for (g.pipelines x) ≡ []
      → mem x m.ready_ids ≡ true
  still_ready x k n = elim (Bool-cases (id == x)) [
    | inl s ↦
        let here = ap g.pipelines (sym ((==_iff id x).0 s)) ∙ e in
        cc (k, ap pends here, is_running-not_pending p.state p-runs)
    | inr s ↦ ground (arith, ok.offered x k n, mem-delete x id g.ready_ids)
  ]

  m-same :
      (x : ℕ)
      → (present (m.pipelines x) ≡ present (g.pipelines x))
        × (pends (m.pipelines x) ≡ pends (g.pipelines x))
        × (runs (m.pipelines x) ≡ (runs (g.pipelines x) && not (id == x)))
        × (is_over (m.pipelines x) ≡ (is_over (g.pipelines x) || (id == x)))
        × (feeds_to (m.pipelines x) ≡ feeds_to (g.pipelines x))
        × (waits_for (m.pipelines x) ≡ waits_for (g.pipelines x))
  m-same x = elim (Bool-cases (id == x)) [
    | inl s ↦
        let quiet = is_running-not_pending p.state p-runs in
        let here = ap g.pipelines (sym ((==_iff id x).0 s)) ∙ e in
        rw (s, here) (refl, quiet, ground (arith, p-runs), ground arith, refl, refl)
    | inr s ↦ rw s (refl, refl, ground arith, ground arith, refl, refl)
  ]

  module _ (h : PipelineGraph) (f : Freed id p.dependents m h) where
    h-waits :
        (x d : ℕ)
        → mem d (waits_for (h.pipelines x)) ≡ (mem d (waits_for (g.pipelines x)) && not (id == d))
    h-waits x d = elim (Bool-cases (mem x p.dependents)) [
      | inl i ↦ ground (arith, f.freed x d i, m-same x)
      | inr i ↦ ground (arith, f.others x i, m-same x, ok.awaited x d, ap feeds_to e, ==_iff id d)
    ]

    Consistent-done : Consistent needed made h (delete id ids)
    Consistent-done = record {
      kept = λ x k. f.same_present x ∙ (m-same x).0 ∙ ok.kept x k;
      bounded = λ x k. ground (arith, ok.bounded x, f.same_present x, f.same_next, m-same x);
      awaited = λ x d k.
          let waited : mem d (waits_for (g.pipelines x)) ≡ true = ground (arith, h-waits x d) in
          let before = ok.awaited x d waited in
          let apart : (id == d) ≡ false = ground (arith, h-waits x d) in
          (
            f.same_present d ∙ (m-same d).0 ∙ before.0,
            f.same_over d ∙ (m-same d).3 ∙ not_or (before.1) apart,
            ap (mem x) (f.same_feeds d ∙ (m-same d).4) ∙ before.2,
            before.3,
          );
      fed = λ x y k.
          f.same_present y
          ∙ (m-same y).0
          ∙ ok.fed x y (sym (ap (mem y) (f.same_feeds x ∙ (m-same x).4)) ∙ k);
      clean = λ x k. ground (
        arith,
        ok.clean x,
        f.same_present x,
        f.same_pends x,
        f.same_runs x,
        f.same_over x,
        m-same x,
      );
      started = λ x k.
          is_nil-mem (waits_for (h.pipelines x)) λ d.
            h-waits x d ∙ rw (ok.started x (sym ((m-same x).1) ∙ sym (f.same_pends x) ∙ k)) refl;
      offered = λ x k n. elim (Bool-cases (mem x p.dependents)) [
        | inl i ↦ f.made_ready x i k n
        | inr i ↦ f.keeps_ready x (
            still_ready x (sym ((m-same x).1) ∙ sym (f.same_pends x) ∙ k)
              (sym ((m-same x).5) ∙ sym (f.others x i) ∙ n))
      ];
      active = λ x. ground (arith, f.same_runs x, m-same x, ok.active x, mem-delete x id ids);
      met = λ x d k. ground (arith, ok.met x d k, h-waits x d, f.same_over d, m-same d);
    }

    fewer : undone h < undone g
    fewer =
        let over = λ (x : ℕ). f.same_over x ∙ (m-same x).3 in
        let there = ok.bounded id (ap present e) in
        let less =
          count_false-less (λ x. is_over (g.pipelines x)) (λ x. is_over (h.pipelines x)) id over
            (ap is_over e ∙ is_running-not_done p.state p-runs) g.next_id there in
        subst (λ k. count_false (λ x. is_over (h.pipelines x)) k < undone g) (sym f.same_next) less

pub mark_pipeline_done-Consistent :
    (needed : ℕ → List ℕ) (made : ℕ → Bool) (g : PipelineGraph) (ids : List ℕ) (id : ℕ)
    → Consistent needed made g ids
    → mem id ids ≡ true
    → (h : PipelineGraph) × (mark_pipeline_done id g ≡ some h)
      × Consistent needed made h (delete id ids)
      × (undone h < undone g)
unfolding mark_pipeline_done
mark_pipeline_done-Consistent needed made g ids id ok running =
    elim (Option-cases (g.pipelines id)) [
      | inl e ↦ cc (ok.active id, ap runs e, running)
      | inr (p, e) ↦
          let there = λ (x : ℕ) (i : mem x p.dependents ≡ true).
            ((m-same needed made g ids ok id p e running x).0 ∙ ok.fed id x (rw e i)) in
          let go = release-Freed id p.dependents (marked g id p) there in
          (
            go.0,
            rw e (go.1),
            Consistent-done needed made g ids ok id p e running (go.0) (go.2),
            fewer needed made g ids ok id p e running (go.0) (go.2),
          )
    ]
