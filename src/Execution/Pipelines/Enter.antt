-- ===== src/Execution/Pipelines/Enter.antt =====
-- The turn of the loop of `schedule` in src/execution/scheduler.ts, from its top to its wait.
use query_engine.Prelude.{
  ℕ, ◌≤◌, ◌<◌, ◌≡◌, refl, sym, subst, ap, ◌∙◌, Bool, true, false, Option, none, some, List, [], ◌∷◌,
  length, ==_iff, leb, arith, Bool-cases, inl, inr, count_up,
}
use query_engine.Execution.Pipelines.Sets.{mem, insert, mem-insert, mem-select}
use query_engine.Execution.Pipelines.{
  Pipeline, PipelineGraph, running, with_state, put, ready_now, get_ready_pipelines,
}
use query_engine.Execution.Pipelines.Scheduler.{
  Scheduler, start_loop, start_ready_pipelines, count_one, count_in, count_pending, settled, enter,
  Verdict, waiting, finished, deadlock, query_cancelled, pipeline_error, unknown_pipeline,
}
use query_engine.Execution.Pipelines.Undone.{undone, count_false, count_false-same}
use query_engine.Execution.Pipelines.Start.{
  startable, m-startable, start-same_over, Consistent-started, length-insert,
}
use query_engine.Execution.Pipelines.Invariant.{
  pends, is_over, waits_for, Consistent, nothing_pends,
}

abbrev start : Scheduler → ℕ → Pipeline → Scheduler
start s id p = record {
  graph = put id (with_state running p) s.graph;
  running_ids = insert id s.running_ids;
}

startable-present : (o : Option Pipeline) → startable o ≡ true → (p : Pipeline) × (o ≡ some p)
startable-present none h = cc h
startable-present (some p) h = (p, refl)

ready_now-free : (o : Option Pipeline) → pends o ≡ true → waits_for o ≡ [] → ready_now o ≡ true
ready_now-free none k n = k
ready_now-free (some p) k n = rw (n, k) refl

ready_now-startable : (o : Option Pipeline) → ready_now o ≡ true → startable o ≡ true
ready_now-startable none k = cc k
ready_now-startable (some p) k = ground arith

-- What holds at a wait and at the ends of `schedule`
abbrev pub Good : (ℕ → List ℕ) → (ℕ → Bool) → ℕ → ℕ → Verdict → Type 0
Good needed made limit n (waiting s) =
    Consistent needed made s.graph s.running_ids
    × (1 ≤ length s.running_ids)
    × (length s.running_ids ≤ limit)
    × (undone s.graph ≤ n)
Good needed made limit n (finished g) = (x : ℕ) → made x ≡ true → is_over (g.pipelines x) ≡ true
Good needed made limit n deadlock = ⊥
Good needed made limit n unknown_pipeline = ⊥
Good needed made limit n (query_cancelled g) = Unit
Good needed made limit n (pipeline_error id g) = Unit

count_one-quiet : (o : Option Pipeline) → pends o ≡ false → count_one o ≡ 0
count_one-quiet none h = refl
count_one-quiet (some p) h = rw h refl

count_in-quiet :
    (g : PipelineGraph) (ids : List ℕ)
    → ((x : ℕ) → pends (g.pipelines x) ≡ false)
    → count_in g ids ≡ 0
count_in-quiet g [] h = refl
count_in-quiet g (id ∷ ids) h =
    omega (arith, count_one-quiet (g.pipelines id) (h id), count_in-quiet g ids h)

count_pending-quiet :
    (g : PipelineGraph) → ((x : ℕ) → pends (g.pipelines x) ≡ false) → count_pending g ≡ 0
unfolding count_pending
count_pending-quiet g h = count_in-quiet g (count_up 0 g.next_id) h

-- What `start_loop` over `ids` leaves.
record Started (needed : ℕ → List ℕ) (made : ℕ → Bool) (limit : ℕ) (ids : List ℕ) (s t : Scheduler)
    : Type 0 where
  consistent : Consistent needed made t.graph t.running_ids
  within : length t.running_ids ≤ limit
  same_next : t.graph.next_id ≡ s.graph.next_id
  same_over : (x : ℕ) → is_over (t.graph.pipelines x) ≡ is_over (s.graph.pipelines x)
  same_ready : t.graph.ready_ids ≡ s.graph.ready_ids
  keeps : (x : ℕ) → mem x s.running_ids ≡ true → mem x t.running_ids ≡ true
  all_started : t.running_ids ≡ [] → ids ≡ []

module _ (needed : ℕ → List ℕ) (made : ℕ → Bool) (limit : ℕ) (some_limit : 1 ≤ limit) where
  start_loop-Started :
      (ids : List ℕ) (s : Scheduler)
      → Consistent needed made s.graph s.running_ids
      → length s.running_ids ≤ limit
      → ((x : ℕ) → mem x ids ≡ true → startable (s.graph.pipelines x) ≡ true)
      → Started needed made limit ids s (start_loop limit ids s)
  unfolding start_loop
  start_loop-Started [] s ok k can = record {
    consistent = ok;
    within = k;
    same_next = refl;
    same_over = λ x. refl;
    same_ready = refl;
    keeps = λ x i. i;
    all_started = λ e. refl;
  }
  start_loop-Started (id ∷ ids) s ok k can = elim (Bool-cases (leb limit (length s.running_ids))) [
    | inl full ↦ rw full (record {
      consistent = ok;
      within = k;
      same_next = refl;
      same_over = λ x. refl;
      same_ready = refl;
      keeps = λ x i. i;
      all_started = λ e. ground (arith, ap length e);
    })
    | inr free ↦
        let can_id = can id (ground (arith, ==_iff id id)) in
        let (p, e) = startable-present (s.graph.pipelines id) can_id in
        let can_p = sym (ap startable e) ∙ can_id in
        let next =
          start_loop-Started ids (start s id p)
            (Consistent-started needed made s.graph s.running_ids ok id p e can_p)
            (ground (arith, length-insert id s.running_ids))
            (λ x i.
              m-startable needed made s.graph s.running_ids ok id p e can_p x
                (can x (ground (arith, i)))) in
        rw (free, e)
          (record {
            consistent = next.consistent;
            within = next.within;
            same_next = next.same_next;
            same_over = λ x.
                next.same_over x
                ∙ start-same_over needed made s.graph s.running_ids ok id p e can_p x;
            same_ready = next.same_ready;
            keeps = λ x i. next.keeps x (ground (arith, mem-insert x id s.running_ids));
            all_started = λ n.
                cc
                  (next.keeps id (ground (arith, mem-insert id id s.running_ids, ==_iff id id)), n);
          })
  ]

  undone-start :
      (n : ℕ) (s t : Scheduler)
      → t.graph.next_id ≡ (get_ready_pipelines s.graph).next_id
      → ((x : ℕ)
          → is_over (t.graph.pipelines x) ≡ is_over ((get_ready_pipelines s.graph).pipelines x))
      → undone s.graph ≤ n
      → undone t.graph ≤ n
  unfolding get_ready_pipelines
  undone-start n s t e same u =
      let next =
        count_false-same (λ x. is_over (s.graph.pipelines x)) (λ x. is_over (t.graph.pipelines x))
          same s.graph.next_id in
      subst (λ k. count_false (λ x. is_over (t.graph.pipelines x)) k ≤ n) (sym e) (omega arith)

  all_over :
      (g : PipelineGraph)
      → Consistent needed made g []
      → ((x : ℕ) → pends (g.pipelines x) ≡ false)
      → (x : ℕ) → made x ≡ true
      → is_over (g.pipelines x) ≡ true
  all_over g ok quiet x k = ground (arith, ok.clean x (ok.kept x k), quiet x, ok.active x)

  get_ready-Consistent :
      (g : PipelineGraph) (ids : List ℕ)
      → Consistent needed made g ids
      → Consistent needed made (get_ready_pipelines g) ids
  unfolding get_ready_pipelines
  get_ready-Consistent g ids ok = record {
    kept = ok.kept;
    bounded = ok.bounded;
    awaited = ok.awaited;
    fed = ok.fed;
    clean = ok.clean;
    started = ok.started;
    offered = λ x k n. ground (
      arith,
      ok.offered x k n,
      mem-select (λ i. ready_now (g.pipelines i)) x g.ready_ids,
      ready_now-free (g.pipelines x) k n,
    );
    active = ok.active;
    met = ok.met;
  }

  get_ready-startable :
      (g : PipelineGraph) (x : ℕ)
      → mem x (get_ready_pipelines g).ready_ids ≡ true
      → startable (g.pipelines x) ≡ true
  unfolding get_ready_pipelines
  get_ready-startable g x i =
      ready_now-startable (g.pipelines x)
        (ground (arith, mem-select (λ i. ready_now (g.pipelines i)) x g.ready_ids))

  start_ready-Started :
      (s : Scheduler)
      → Consistent needed made s.graph s.running_ids
      → length s.running_ids ≤ limit
      → let g = get_ready_pipelines s.graph in
        Started needed made limit g.ready_ids
          (record { graph = g; running_ids = s.running_ids })
          (start_ready_pipelines limit s)
  unfolding start_ready_pipelines
  start_ready-Started s ok k =
      start_loop-Started (get_ready_pipelines s.graph).ready_ids
        (record { graph = get_ready_pipelines s.graph; running_ids = s.running_ids })
        (get_ready-Consistent s.graph s.running_ids ok) k (λ x i. get_ready-startable s.graph x i)

  module _ (rank : ℕ → ℕ) (falls : (x d : ℕ) → mem d (needed x) ≡ true → rank d < rank x) where
    settled-Good :
        (n : ℕ) (t : Scheduler) (ids : List ℕ)
        → t.running_ids ≡ ids
        → Consistent needed made t.graph ids
        → length ids ≤ limit
        → undone t.graph ≤ n
        → (ids ≡ [] → t.graph.ready_ids ≡ [])
        → Good needed made limit n (settled t ids)
    settled-Good n t [] e ok k u idle =
        let quiet = nothing_pends needed made t.graph ok rank falls (idle refl) in
        rw (count_pending-quiet t.graph quiet) (all_over t.graph ok quiet)
    settled-Good n t (id ∷ ids) e ok k u idle = rw e (ok, omega arith, k, u)

    pub enter-Good :
        (n : ℕ) (s : Scheduler)
        → Consistent needed made s.graph s.running_ids
        → length s.running_ids ≤ limit
        → undone s.graph ≤ n
        → Good needed made limit n (enter limit s)
    unfolding enter
    enter-Good n s ok k u =
        let t = start_ready_pipelines limit s in
        let st = start_ready-Started s ok k in
        settled-Good n t t.running_ids refl st.consistent st.within
          (undone-start n s t st.same_next st.same_over u) (λ e. st.same_ready ∙ st.all_started e)
