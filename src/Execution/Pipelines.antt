-- ===== src/Execution/Pipelines.antt =====
-- src/execution/pipeline.ts, the graph of pipelines, and src/execution/scheduler.ts.
--
-- The map of pipelines is a function on ids; all its ids lie below `next_id`. A set of ids is a list in
-- the order of insertion. What a pipeline runs, its sink and its source, is left out: the scheduler
-- only learns which pipeline ends next, and how, which the events say.
pub mod Sets
pub mod Scheduler
pub mod Invariant
pub mod Undone
pub mod Release
pub mod Done
pub mod Start
pub mod Enter
pub mod Build
pub mod Link
pub mod Live
pub mod Schedule
use query_engine.Prelude.{
  ℕ, zero, suc, ◌+◌, Bool, true, false, not, ◌&&◌, ◌||◌, Option, none, some, List, [], ◌∷◌, ◌++◌,
  ltb, leb, ◌==◌, if◌then◌else◌, count_up,
}
use query_engine.Execution.Pipelines.Sets.{mem, insert, delete, select, is_nil}

pub data PipelineState : Type 0 where
  pending running done failed cancelled_state : PipelineState

abbrev pub is_pending : PipelineState → Bool
is_pending pending = true
is_pending _ = false

abbrev pub is_running : PipelineState → Bool
is_running running = true
is_running _ = false

abbrev pub is_done : PipelineState → Bool
is_done done = true
is_done _ = false

pub record Pipeline : Type 0 where
  pub dependencies : List ℕ
  pub dependents : List ℕ
  pub state : PipelineState
  pub cancelled : Bool

pub record PipelineGraph : Type 0 where
  pub pipelines : ℕ → Option Pipeline
  pub next_id : ℕ
  pub ready_ids : List ℕ

unfoldable pub pipeline_graph : PipelineGraph
pipeline_graph = record { pipelines = λ i. none; next_id = 1; ready_ids = [] }

abbrev pub update : (ℕ → Option Pipeline) → ℕ → Pipeline → ℕ → Option Pipeline
update f id p i = if id == i then some p else f i

abbrev pub put : ℕ → Pipeline → PipelineGraph → PipelineGraph
put id p g = record g { pipelines = update g.pipelines id p }

unfoldable pub create_pipeline : PipelineGraph → PipelineGraph
create_pipeline g = record {
  pipelines =
      update g.pipelines g.next_id
        (record { dependencies = []; dependents = []; state = pending; cancelled = false });
  next_id = g.next_id + 1;
  ready_ids = insert g.next_id g.ready_ids;
}

abbrev pub needs : ℕ → Pipeline → Pipeline
needs id p = record p { dependencies = insert id p.dependencies }

abbrev pub feeds : ℕ → Pipeline → Pipeline
feeds id p = record p { dependents = insert id p.dependents }

abbrev pub linked : ℕ → ℕ → Option Pipeline → PipelineGraph → Option PipelineGraph
linked id other none g = none
linked id other (some d) g =
    some (record (put other (feeds id d) g) { ready_ids = delete id g.ready_ids })

abbrev pub depend_on :
    ℕ → ℕ → Option Pipeline → Option Pipeline → PipelineGraph → Option PipelineGraph
depend_on id other none d g = none
depend_on id other (some p) none g = none
depend_on id other (some p) (some d) g =
    let h = put id (needs other p) g in linked id other (h.pipelines other) h

-- `addDependency`. None is the error on an id that does not exist.
unfoldable pub add_dependency : ℕ → ℕ → PipelineGraph → Option PipelineGraph
add_dependency id other g = depend_on id other (g.pipelines id) (g.pipelines other) g

abbrev pub ready_now : Option Pipeline → Bool
ready_now none = false
ready_now (some p) = is_pending p.state && is_nil p.dependencies

-- `getReadyPipelines`, as ids; the others are dropped from `readyIds`.
unfoldable pub get_ready_pipelines : PipelineGraph → PipelineGraph
get_ready_pipelines g = record g { ready_ids = select (λ i. ready_now (g.pipelines i)) g.ready_ids }

-- One round of the loop of `markPipelineDone`: `id` is done, the pipeline `p` at `dependent` waited for it.
unfoldable pub release_one : ℕ → ℕ → Pipeline → PipelineGraph → PipelineGraph
release_one id dependent p g =
    let rest = delete id p.dependencies in
    record (put dependent (record p { dependencies = rest }) g) {
      ready_ids =
          if is_nil rest && is_pending p.state then insert dependent g.ready_ids else g.ready_ids;
    }

abbrev pub released :
    ℕ
    → ℕ
    → Option Pipeline
    → PipelineGraph
    → (PipelineGraph → Option PipelineGraph)
    → Option PipelineGraph
released id dependent none g go_on = none
released id dependent (some p) g go_on = go_on (release_one id dependent p g)

unfoldable pub release : ℕ → List ℕ → PipelineGraph → Option PipelineGraph
unfolding release_one
release id [] g = some g
release id (dependent ∷ rest) g = released id dependent (g.pipelines dependent) g (release id rest)

abbrev pub with_state : PipelineState → Pipeline → Pipeline
with_state s p = record p { state = s }

abbrev pub done_at : ℕ → Option Pipeline → PipelineGraph → Option PipelineGraph
done_at id none g = none
done_at id (some p) g =
    release id p.dependents
      (record (put id (with_state done p) g) { ready_ids = delete id g.ready_ids })

-- `markPipelineDone`. None is the error on an id that does not exist.
unfoldable pub mark_pipeline_done : ℕ → PipelineGraph → Option PipelineGraph
unfolding release
mark_pipeline_done id g = done_at id (g.pipelines id) g

abbrev pub failed_at : ℕ → Option Pipeline → PipelineGraph → PipelineGraph
failed_at id none g = g
failed_at id (some p) g = record (put id (with_state failed p) g) {
  ready_ids = delete id g.ready_ids;
}

unfoldable pub mark_pipeline_failed : ℕ → PipelineGraph → PipelineGraph
mark_pipeline_failed id g = failed_at id (g.pipelines id) g

abbrev pub cancel_state : PipelineState → PipelineState
cancel_state pending = cancelled_state
cancel_state running = cancelled_state
cancel_state s = s

abbrev pub cancelled_at : ℕ → Option Pipeline → PipelineGraph → PipelineGraph
cancelled_at id none g = g
cancelled_at id (some p) g =
    if p.cancelled
    then g
    else record (put id (record p { state = cancel_state p.state; cancelled = true }) g) {
      ready_ids = delete id g.ready_ids;
    }

unfoldable pub cancel_pipeline : ℕ → PipelineGraph → PipelineGraph
cancel_pipeline id g = cancelled_at id (g.pipelines id) g
