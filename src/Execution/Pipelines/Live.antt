-- ===== src/Execution/Pipelines/Live.antt =====
-- The whole run of `schedule` of src/execution/scheduler.ts.
use query_engine.Prelude.{
  ℕ, suc, ◌≤◌, ◌<◌, ◌≡◌, refl, ◌∙◌, Bool, true, false, ◌&&◌, Option, none, some, List, [], ◌∷◌,
  length, ==_iff, ltb, arith, Bool-cases, inl, inr,
}
use query_engine.Execution.Pipelines.Sets.{mem, delete}
use query_engine.Execution.Pipelines.{Pipeline, PipelineGraph, mark_pipeline_done}
use query_engine.Execution.Pipelines.Scheduler.{
  Scheduler, Event, ended, raised, cancel, Verdict, waiting, finished, deadlock, query_cancelled,
  pipeline_error, unknown_pipeline, top, resumed, enter, on_event, then_events, settled,
  count_pending, start_ready_pipelines,
}
use query_engine.Execution.Pipelines.Undone.{undone, count_false-some}
use query_engine.Execution.Pipelines.Done.{mark_pipeline_done-Consistent}
use query_engine.Execution.Pipelines.Enter.{Good, enter-Good}
use query_engine.Execution.Pipelines.Invariant.{present, runs, is_over, Consistent}

-- Whether the pipeline that ends or fails is running.
abbrev pub about_running : Scheduler → Event → Bool
about_running s (ended id stopped) = mem id s.running_ids
about_running s (raised id) = mem id s.running_ids
about_running s cancel = true

-- Whether each event is about a pipeline that runs when it comes.
abbrev pub possible : ℕ → Verdict → List Event → Bool
possible limit (waiting s) (e ∷ es) = about_running s e && possible limit (on_event limit s e) es
possible limit v es = true

-- The events that only end pipelines, while the query is not cancelled.
abbrev pub all_end : List Event → Bool
all_end [] = true
all_end (ended id false ∷ es) = all_end es
all_end (e ∷ es) = false

length-delete : (i : ℕ) (js : List ℕ) → length (delete i js) ≤ length js
length-delete i [] = omega arith
length-delete i (j ∷ js) = ground (arith, length-delete i js)

-- Whether a cancel or an error ended the run.
abbrev pub halted : Verdict → Bool
halted (query_cancelled g) = true
halted (pipeline_error id g) = true
halted v = false

pub settled-not_halted : (s : Scheduler) (ids : List ℕ) → halted (settled s ids) ≡ false
settled-not_halted s [] = elim (Bool-cases (ltb 0 (count_pending s.graph))) [
  | inl e ↦ rw e refl
  | inr e ↦ rw e refl
]
settled-not_halted s (id ∷ ids) = refl

resumed-not_halted :
    (limit : ℕ) (ids : List ℕ) (o : Option PipelineGraph)
    → halted (resumed limit false ids o) ≡ false
unfolding enter
resumed-not_halted limit ids none = refl
resumed-not_halted limit ids (some g) =
    let s : Scheduler = record { graph = g; running_ids = ids } in
    settled-not_halted (start_ready_pipelines limit s) (start_ready_pipelines limit s).running_ids

running-not_over : (o : Option Pipeline) → runs o ≡ true → is_over o ≡ false
running-not_over none h = refl
running-not_over (some p) h = ground arith

running-present : (o : Option Pipeline) → runs o ≡ true → present o ≡ true
running-present none h = h
running-present (some p) h = refl

module _ (needed : ℕ → List ℕ) (made : ℕ → Bool) (rank : ℕ → ℕ)
    (falls : (x d : ℕ) → mem d (needed x) ≡ true → rank d < rank x) (limit : ℕ)
    (some_limit : 1 ≤ limit) where
  pub top-Good :
      (n : ℕ) (stopped : Bool) (s : Scheduler)
      → Consistent needed made s.graph s.running_ids
      → length s.running_ids ≤ limit
      → undone s.graph ≤ n
      → Good needed made limit n (top limit stopped s)
  top-Good n true s ok k u = tt
  top-Good n false s ok k u = enter-Good needed made limit some_limit rank falls n s ok k u

  ended-Good :
      (n id : ℕ) (s : Scheduler) (stopped : Bool)
      → Good needed made limit (suc n) (waiting s)
      → mem id s.running_ids ≡ true
      → Good needed made limit n (on_event limit s (ended id stopped))
  unfolding on_event
  ended-Good n id s stopped (ok, _, k, u) i =
      let (h, e, ok_h, less) =
        mark_pipeline_done-Consistent needed made s.graph s.running_ids id ok i in
      rw e (
        top-Good n stopped (record { graph = h; running_ids = delete id s.running_ids }) ok_h
          (omega (arith, length-delete id s.running_ids)) (omega arith))

  Good-more : (n : ℕ) (v : Verdict) → Good needed made limit n v → Good needed made limit (suc n) v
  Good-more n (waiting s) (ok, l, k, u) = (ok, l, k, omega arith)
  Good-more n (finished g) h = h
  Good-more n deadlock h = h
  Good-more n unknown_pipeline h = h
  Good-more n (query_cancelled g) h = h
  Good-more n (pipeline_error id g) h = h

  on_event-Good :
      (n : ℕ) (s : Scheduler) (e : Event)
      → Good needed made limit n (waiting s)
      → about_running s e ≡ true
      → Good needed made limit n (on_event limit s e)
  unfolding on_event
  on_event-Good n s (ended id stopped) good i =
      ended-Good n id s stopped (Good-more n (waiting s) good) i
  on_event-Good n s (raised id) good i = tt
  on_event-Good n s cancel good i = tt

  pub then_events-Good :
      (n : ℕ) (v : Verdict) (events : List Event)
      → Good needed made limit n v
      → possible limit v events ≡ true
      → Good needed made limit n (then_events limit v events)
  then_events-Good n (waiting s) [] good k = good
  then_events-Good n (waiting s) (e ∷ es) good k =
      then_events-Good n (on_event limit s e) es (on_event-Good n s e good (ground arith))
        (ground arith)
  then_events-Good n (finished g) es good k = good
  then_events-Good n deadlock es good k = absurd good
  then_events-Good n unknown_pipeline es good k = absurd good
  then_events-Good n (query_cancelled g) es good k = tt
  then_events-Good n (pipeline_error id g) es good k = tt

  busy :
      (s : Scheduler) (ids : List ℕ)
      → s.running_ids ≡ ids
      → 1 ≤ length ids
      → Consistent needed made s.graph s.running_ids
      → 1 ≤ undone s.graph
  busy s [] e l ok = absurd (omega arith)
  busy s (id ∷ ids) e l ok =
      let i : mem id s.running_ids ≡ true = rw e (ground (arith, ==_iff id id)) in
      count_false-some (λ x. is_over (s.graph.pipelines x)) id s.graph.next_id
        (running-not_over (s.graph.pipelines id) (ok.active id ∙ i))
        (ok.bounded id (running-present (s.graph.pipelines id) (ok.active id ∙ i)))

  pub endings-finish :
      (v : Verdict) (events : List Event)
      → Good needed made limit (length events) v
      → halted v ≡ false
      → possible limit v events ≡ true
      → all_end events ≡ true
      → (g : PipelineGraph) × (then_events limit v events ≡ finished g)
  unfolding on_event enter
  endings-finish (waiting s) [] (ok, l, k, u) h p a =
      absurd (omega (arith, busy s s.running_ids refl l ok))
  endings-finish (waiting s) (ended id false ∷ es) good h p a =
      let running : mem id s.running_ids ≡ true = ground arith in
      endings-finish (on_event limit s (ended id false)) es
        (ended-Good (length es) id s false good running)
        (resumed-not_halted limit (delete id s.running_ids) (mark_pipeline_done id s.graph))
        (ground arith) a
  endings-finish (waiting s) (e ∷ es) good h p a = cc a
  endings-finish (finished g) es good h p a = (g, refl)
  endings-finish deadlock es good h p a = absurd good
  endings-finish unknown_pipeline es good h p a = absurd good
  endings-finish (query_cancelled g) es good h p a = cc h
  endings-finish (pipeline_error id g) es good h p a = cc h
