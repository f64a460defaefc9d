-- ===== src/Execution/Pipelines/Scheduler.antt =====
-- src/execution/scheduler.ts. The scheduler waits for one event at a time: a running pipeline ends, or
-- fails, or the query is cancelled. Settling the pipelines that still run only waits.
use query_engine.Prelude.{
  ℕ, ◌+◌, Bool, true, false, Option, none, some, List, [], ◌∷◌, length, ltb, leb, if◌then◌else◌,
  count_up, max,
}
use query_engine.Execution.Pipelines.Sets.{insert, delete}
use query_engine.Execution.Pipelines.{
  Pipeline, PipelineGraph, running, is_pending, with_state, put, get_ready_pipelines,
  mark_pipeline_done, mark_pipeline_failed, cancel_pipeline,
}

pub record Scheduler : Type 0 where
  pub graph : PipelineGraph
  pub running_ids : List ℕ

-- A pipeline ended, and whether the query is cancelled when the loop looks again; a pipeline failed;
-- the query was cancelled first.
pub data Event : Type 0 where
  ended : ℕ → Bool → Event
  raised : ℕ → Event
  cancel : Event

-- Where `schedule` is: at its wait, or at its end.
pub data Verdict : Type 0 where
  waiting : Scheduler → Verdict
  finished : PipelineGraph → Verdict
  deadlock : Verdict
  query_cancelled : PipelineGraph → Verdict
  pipeline_error : ℕ → PipelineGraph → Verdict
  unknown_pipeline : Verdict

abbrev pub started_at : ℕ → Option Pipeline → Scheduler → Scheduler
started_at id none s = s
started_at id (some p) s = record {
  graph = put id (with_state running p) s.graph;
  running_ids = insert id s.running_ids;
}

-- The loop of `startReadyPipelines` over the ready pipelines.
unfoldable pub start_loop : ℕ → List ℕ → Scheduler → Scheduler
start_loop concurrency [] s = s
start_loop concurrency (id ∷ ids) s =
    let more = start_loop concurrency ids (started_at id (s.graph.pipelines id) s) in
    if leb concurrency (length s.running_ids) then s else more

unfoldable pub start_ready_pipelines : ℕ → Scheduler → Scheduler
unfolding start_loop get_ready_pipelines
start_ready_pipelines concurrency s =
    let g = get_ready_pipelines s.graph in
    start_loop concurrency g.ready_ids (record { graph = g; running_ids = s.running_ids })

abbrev pub count_one : Option Pipeline → ℕ
count_one none = 0
count_one (some p) = if is_pending p.state then 1 else 0

abbrev pub count_in : PipelineGraph → List ℕ → ℕ
count_in g [] = 0
count_in g (id ∷ ids) = count_one (g.pipelines id) + count_in g ids

unfoldable pub count_pending : PipelineGraph → ℕ
count_pending g = count_in g (count_up 0 g.next_id)

abbrev pub settled : Scheduler → List ℕ → Verdict
settled s [] = if ltb 0 (count_pending s.graph) then deadlock else finished s.graph
settled s (id ∷ ids) = waiting s

-- From the top of the loop of `schedule` to its wait, when the query is not cancelled
unfoldable pub enter : ℕ → Scheduler → Verdict
unfolding start_ready_pipelines count_pending
enter concurrency s = let t = start_ready_pipelines concurrency s in settled t t.running_ids

abbrev pub cancel_running : List ℕ → PipelineGraph → PipelineGraph
cancel_running [] g = g
cancel_running (id ∷ ids) g = cancel_running ids (cancel_pipeline id g)

-- The top of the loop, by whether the query is cancelled
abbrev pub top : ℕ → Bool → Scheduler → Verdict
top concurrency true s = query_cancelled (cancel_running s.running_ids s.graph)
top concurrency false s = enter concurrency s

abbrev pub resumed : ℕ → Bool → List ℕ → Option PipelineGraph → Verdict
resumed concurrency stopped ids none = unknown_pipeline
resumed concurrency stopped ids (some g) =
    top concurrency stopped (record { graph = g; running_ids = ids })

-- From one wait to the next
unfoldable pub on_event : ℕ → Scheduler → Event → Verdict
unfolding enter mark_pipeline_done mark_pipeline_failed cancel_pipeline
on_event concurrency s (ended id stopped) =
    resumed concurrency stopped (delete id s.running_ids) (mark_pipeline_done id s.graph)
on_event concurrency s (raised id) =
    pipeline_error id (cancel_running (delete id s.running_ids) (mark_pipeline_failed id s.graph))
on_event concurrency s cancel = query_cancelled (cancel_running s.running_ids s.graph)

abbrev pub then_events : ℕ → Verdict → List Event → Verdict
then_events concurrency (waiting s) [] = waiting s
then_events concurrency (waiting s) (e ∷ es) = then_events concurrency (on_event concurrency s e) es
then_events concurrency v es = v

-- `schedule` with the constructor's `concurrency`, by whether the query is cancelled at its start, up
-- to the wait after these events
unfoldable pub schedule : ℕ → PipelineGraph → Bool → List Event → Verdict
unfolding on_event
schedule concurrency g stopped events =
    let limit = max 1 concurrency in
    then_events limit (top limit stopped (record { graph = g; running_ids = [] })) events
