-- ===== src/Tests/Pipelines.antt =====
-- Runs of src/execution/scheduler.ts: the third pipeline depends on the first two.
use query_engine.Prelude.{
  ℕ, ◌≤◌, ◌<◌, ◌≡◌, refl, true, false, Option, some, List, [], ◌∷◌, length, arith, max,
}
use query_engine.Execution.Pipelines.Sets.{mem}
use query_engine.Execution.Pipelines.{
  PipelineGraph, pipeline_graph, create_pipeline, add_dependency,
}
use query_engine.Execution.Pipelines.Scheduler.{
  Scheduler, Event, ended, Verdict, waiting, finished, deadlock, unknown_pipeline, schedule,
}
use query_engine.Execution.Pipelines.Build.{BuildStep, creates, depends, build}
use query_engine.Execution.Pipelines.Invariant.{is_over, waits_for}
use query_engine.Execution.Pipelines.Schedule.{
  schedule-no_deadlock, schedule-length, schedule-order, schedule-done, schedule-ends,
}

abbrev steps : List BuildStep
steps = creates ∷ creates ∷ creates ∷ depends 3 1 ∷ depends 3 2 ∷ []

abbrev given : Option PipelineGraph → PipelineGraph
given (some g) = g
given _ = pipeline_graph

abbrev joined : PipelineGraph
joined = given (build steps pipeline_graph)

joined-made : build steps pipeline_graph ≡ some joined
unfolding create_pipeline add_dependency pipeline_graph
joined-made = refl

joined-falls : (x d : ℕ) → mem d (waits_for (joined.pipelines x)) ≡ true → d < x
unfolding create_pipeline add_dependency pipeline_graph
joined-falls x d h = ground arith

abbrev both_ended : List Event
both_ended = ended 2 false ∷ ended 1 false ∷ []

abbrev all_ended : List Event
all_ended = ended 1 false ∷ ended 2 false ∷ ended 3 false ∷ ended 3 false ∷ []

abbrev state_of : Verdict → Scheduler
state_of (waiting s) = s
state_of _ = record { graph = joined; running_ids = [] }

abbrev graph_of : Verdict → PipelineGraph
graph_of (finished g) = g
graph_of _ = joined

schedule-no_deadlock_example :
    (¬ (schedule 2 joined false both_ended ≡ deadlock))
    × (¬ (schedule 2 joined false both_ended ≡ unknown_pipeline))
unfolding schedule create_pipeline add_dependency pipeline_graph
schedule-no_deadlock_example =
    schedule-no_deadlock steps joined joined-made (λ x. x) joined-falls 2 false both_ended refl

schedule-length_example :
    (1 ≤ length (state_of (schedule 2 joined false both_ended)).running_ids)
    × (length (state_of (schedule 2 joined false both_ended)).running_ids ≤ max 1 2)
unfolding schedule create_pipeline add_dependency pipeline_graph
schedule-length_example =
    schedule-length steps joined joined-made (λ x. x) joined-falls 2 false both_ended refl
      (state_of (schedule 2 joined false both_ended)) refl

schedule-order_example :
    is_over ((state_of (schedule 2 joined false both_ended)).graph.pipelines 2) ≡ true
unfolding schedule create_pipeline add_dependency pipeline_graph
schedule-order_example =
    schedule-order steps joined joined-made (λ x. x) joined-falls 2 false both_ended refl
      (state_of (schedule 2 joined false both_ended)) 3 2 refl refl refl

schedule-done_example : is_over ((graph_of (schedule 2 joined false all_ended)).pipelines 3) ≡ true
unfolding schedule create_pipeline add_dependency pipeline_graph
schedule-done_example =
    schedule-done steps joined joined-made (λ x. x) joined-falls 2 false all_ended refl
      (graph_of (schedule 2 joined false all_ended)) 3 refl refl

schedule-ends_example : (h : PipelineGraph) × (schedule 2 joined false all_ended ≡ finished h)
unfolding schedule create_pipeline add_dependency pipeline_graph
schedule-ends_example =
    schedule-ends steps joined joined-made (λ x. x) joined-falls 2 all_ended refl refl (omega arith)
