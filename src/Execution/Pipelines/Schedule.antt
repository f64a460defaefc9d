-- ===== src/Execution/Pipelines/Schedule.antt =====
-- What `schedule` of src/execution/scheduler.ts promises of a graph made by `createPipeline` and
-- `addDependency`.
use query_engine.Prelude.{
  ℕ, ◌≤◌, ◌<◌, ◌≡◌, refl, Bool, true, false, some, List, [], length, arith, max,
}
use query_engine.Execution.Pipelines.Sets.{mem}
use query_engine.Execution.Pipelines.{PipelineGraph, pipeline_graph}
use query_engine.Execution.Pipelines.Scheduler.{
  Scheduler, Event, Verdict, waiting, finished, deadlock, unknown_pipeline, query_cancelled,
  pipeline_error, then_events, top, enter, start_ready_pipelines, schedule,
}
use query_engine.Execution.Pipelines.Undone.{undone, count_false-bound}
use query_engine.Execution.Pipelines.Enter.{Good}
use query_engine.Execution.Pipelines.Build.{BuildStep, build}
use query_engine.Execution.Pipelines.Link.{build-Consistent}
use query_engine.Execution.Pipelines.Invariant.{present, is_over, waits_for, running-needs_done}
use query_engine.Execution.Pipelines.Live.{
  possible, all_end, top-Good, then_events-Good, endings-finish, settled-not_halted,
}

max-positive : (n : ℕ) → 1 ≤ max 1 n
max-positive n = ground arith

then_events-nil : (limit : ℕ) (v : Verdict) → then_events limit v [] ≡ v
then_events-nil limit (waiting s) = refl
then_events-nil limit (finished g) = refl
then_events-nil limit deadlock = refl
then_events-nil limit unknown_pipeline = refl
then_events-nil limit (query_cancelled g) = refl
then_events-nil limit (pipeline_error id g) = refl

abbrev at_start : PipelineGraph → Scheduler
at_start g = record { graph = g; running_ids = [] }

-- The dependencies form no cycle: `rank` falls along them.
module _ (steps : List BuildStep) (g : PipelineGraph)
    (made_by : build steps pipeline_graph ≡ some g) (rank : ℕ → ℕ)
    (falls : (x d : ℕ) → mem d (waits_for (g.pipelines x)) ≡ true → rank d < rank x)
    (concurrency : ℕ) where
  first-Good :
      (n : ℕ) (stopped : Bool)
      → undone g ≤ n
      → Good
          (λ x. waits_for (g.pipelines x))
          (λ x. present (g.pipelines x))
          (max 1 concurrency)
          n
          (top (max 1 concurrency) stopped (at_start g))
  first-Good n stopped u =
      top-Good (λ x. waits_for (g.pipelines x)) (λ x. present (g.pipelines x)) rank falls
        (max 1 concurrency) (max-positive concurrency) n stopped (at_start g)
        (build-Consistent steps g made_by) (omega arith) u

  module _ (stopped : Bool) (events : List Event)
      (can_be : possible (max 1 concurrency) (schedule concurrency g stopped []) events
        ≡ true) where
    schedule-Good :
        Good
          (λ x. waits_for (g.pipelines x))
          (λ x. present (g.pipelines x))
          (max 1 concurrency)
          (undone g)
          (schedule concurrency g stopped events)
    unfolding schedule
    schedule-Good =
        let v = top (max 1 concurrency) stopped (at_start g) in
        then_events-Good (λ x. waits_for (g.pipelines x)) (λ x. present (g.pipelines x)) rank falls
          (max 1 concurrency) (max-positive concurrency) (undone g) v events
          (first-Good (undone g) stopped (omega arith))
          (rw (then_events-nil (max 1 concurrency) v) at can_be)

    -- Pipelines were made and linked by calls that succeed, and their dependencies form no cycle. Then
    -- `schedule`, whatever running pipelines end or fail in whatever order and whether or not the
    -- query is cancelled, neither reports a deadlock nor marks a pipeline that the graph does not know.
    pub schedule-no_deadlock :
        (¬ (schedule concurrency g stopped events ≡ deadlock))
        × (¬ (schedule concurrency g stopped events ≡ unknown_pipeline))
    schedule-no_deadlock = (λ e. rw e at schedule-Good, λ e. rw e at schedule-Good)

    -- On such a graph, whenever `schedule` waits, at least one pipeline runs and no more than the
    -- concurrency, or one if the concurrency is 0.
    pub schedule-length :
        (s : Scheduler)
        → schedule concurrency g stopped events ≡ waiting s
        → (1 ≤ length s.running_ids) × (length s.running_ids ≤ max 1 concurrency)
    schedule-length s e = let (ok, l, k, u) = rw e at schedule-Good in (l, k)

    -- On such a graph, whenever `schedule` waits, every pipeline that a running one was made to depend
    -- on is done.
    pub schedule-order :
        (s : Scheduler) (x d : ℕ)
        → schedule concurrency g stopped events ≡ waiting s
        → mem x s.running_ids ≡ true
        → mem d (waits_for (g.pipelines x)) ≡ true
        → is_over (s.graph.pipelines d) ≡ true
    schedule-order s x d e i n =
        let (ok, _, _, _) = rw e at schedule-Good in
        running-needs_done (λ x. waits_for (g.pipelines x)) (λ x. present (g.pipelines x)) s.graph
          s.running_ids ok x d i n

    -- On such a graph, when `schedule` finishes, every pipeline that was made is done.
    pub schedule-done :
        (h : PipelineGraph) (x : ℕ)
        → schedule concurrency g stopped events ≡ finished h
        → present (g.pipelines x) ≡ true
        → is_over (h.pipelines x) ≡ true
    schedule-done h x e k = let good = rw e at schedule-Good in good x k

  -- On such a graph, when the query is not cancelled and each event ends a pipeline that runs, in any
  -- order, `schedule` has finished after as many events as the next free id of the graph, which is one
  -- more than the pipelines made.
  pub schedule-ends :
      (events : List Event)
      → possible (max 1 concurrency) (schedule concurrency g false []) events ≡ true
      → all_end events ≡ true
      → g.next_id ≤ length events
      → (h : PipelineGraph) × (schedule concurrency g false events ≡ finished h)
  unfolding schedule enter
  schedule-ends events can_be a l =
      let v = top (max 1 concurrency) false (at_start g) in
      let t = start_ready_pipelines (max 1 concurrency) (at_start g) in
      endings-finish (λ x. waits_for (g.pipelines x)) (λ x. present (g.pipelines x)) rank falls
        (max 1 concurrency) (max-positive concurrency) v events
        (first-Good (length events) false
          (omega (arith, count_false-bound (λ x. is_over (g.pipelines x)) g.next_id)))
        (settled-not_halted t t.running_ids) (rw (then_events-nil (max 1 concurrency) v) at can_be)
        a
