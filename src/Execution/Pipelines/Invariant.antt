-- ===== src/Execution/Pipelines/Invariant.antt =====
-- What holds of the graph and of the running pipelines of src/execution/scheduler.ts between events.
use query_engine.Prelude.{
  ℕ, zero, suc, ◌<◌, ◌≡◌, refl, ◌∙◌, Bool, true, false, ◌||◌, Option, none, some, List, [], arith,
  Bool-cases, inl, inr,
}
use query_engine.Execution.Pipelines.Sets.{mem, is_nil-mem}
use query_engine.Execution.Pipelines.{Pipeline, PipelineGraph, is_pending, is_running, is_done}

abbrev pub present : Option Pipeline → Bool
present none = false
present (some p) = true

abbrev pub pends : Option Pipeline → Bool
pends none = false
pends (some p) = is_pending p.state

abbrev pub runs : Option Pipeline → Bool
runs none = false
runs (some p) = is_running p.state

abbrev pub is_over : Option Pipeline → Bool
is_over none = false
is_over (some p) = is_done p.state

abbrev pub waits_for : Option Pipeline → List ℕ
waits_for none = []
waits_for (some p) = p.dependencies

abbrev pub feeds_to : Option Pipeline → List ℕ
feeds_to none = []
feeds_to (some p) = p.dependents

-- `needed` gives the pipelines that each was made to depend on, `made` tells which were made.
pub record Consistent (needed : ℕ → List ℕ) (made : ℕ → Bool) (g : PipelineGraph) (ids : List ℕ)
    : Type 0 where
  pub kept : (x : ℕ) → made x ≡ true → present (g.pipelines x) ≡ true
  pub bounded : (x : ℕ) → present (g.pipelines x) ≡ true → x < g.next_id
  pub awaited :
      (x d : ℕ)
      → mem d (waits_for (g.pipelines x)) ≡ true
      → (present (g.pipelines d) ≡ true)
        × (is_over (g.pipelines d) ≡ false)
        × (mem x (feeds_to (g.pipelines d)) ≡ true)
        × (mem d (needed x) ≡ true)
  pub fed : (x y : ℕ) → mem y (feeds_to (g.pipelines x)) ≡ true → present (g.pipelines y) ≡ true
  pub clean :
      (x : ℕ)
      → present (g.pipelines x) ≡ true
      → (pends (g.pipelines x) || runs (g.pipelines x) || is_over (g.pipelines x)) ≡ true
  pub started : (x : ℕ) → pends (g.pipelines x) ≡ false → waits_for (g.pipelines x) ≡ []
  pub offered :
      (x : ℕ)
      → pends (g.pipelines x) ≡ true
      → waits_for (g.pipelines x) ≡ []
      → mem x g.ready_ids ≡ true
  pub active : (x : ℕ) → runs (g.pipelines x) ≡ mem x ids
  pub met :
      (x d : ℕ)
      → mem d (needed x) ≡ true
      → (mem d (waits_for (g.pipelines x)) || is_over (g.pipelines d)) ≡ true

pends-runs : (o : Option Pipeline) → runs o ≡ true → pends o ≡ false
pends-runs none h = refl
pends-runs (some p) h = ground arith

module _ (needed : ℕ → List ℕ) (made : ℕ → Bool) (g : PipelineGraph) (ids : List ℕ)
    (ok : Consistent needed made g ids) where
  -- What a running pipeline needed is done.
  pub running-needs_done :
      (x d : ℕ) → mem x ids ≡ true → mem d (needed x) ≡ true → is_over (g.pipelines d) ≡ true
  running-needs_done x d h n =
      let idle = pends-runs (g.pipelines x) (ok.active x ∙ h) in
      rw (ok.started x idle) at (ok.met x d n)

-- With a rank that falls along the dependencies, nothing pends when nothing runs and nothing is offered.
module _ (needed : ℕ → List ℕ) (made : ℕ → Bool) (g : PipelineGraph)
    (ok : Consistent needed made g []) (rank : ℕ → ℕ)
    (falls : (x d : ℕ) → mem d (needed x) ≡ true → rank d < rank x)
    (none_ready : g.ready_ids ≡ []) where
  awaited-pends :
      (x d : ℕ) → mem d (waits_for (g.pipelines x)) ≡ true → pends (g.pipelines d) ≡ true
  awaited-pends x d h =
      let (there, unfinished, _, _) = ok.awaited x d h in
      ground (arith, ok.clean d there, ok.active d)

  nothing_pends_below : (n x : ℕ) → rank x < n → pends (g.pipelines x) ≡ false
  nothing_pends_below zero x h = absurd (omega arith)
  nothing_pends_below (suc n) x h = elim (Bool-cases (pends (g.pipelines x))) [
    | inl e ↦
        let free = is_nil-mem (waits_for (g.pipelines x)) λ d.
          elim (Bool-cases (mem d (waits_for (g.pipelines x)))) [
            | inl m ↦
                let lower = falls x d (ok.awaited x d m).3 in
                cc (awaited-pends x d m, nothing_pends_below n d (omega arith))
            | inr m ↦ m
          ] in
        cc (ok.offered x e free, none_ready)
    | inr e ↦ e
  ]

  pub nothing_pends : (x : ℕ) → pends (g.pipelines x) ≡ false
  nothing_pends x = nothing_pends_below (suc (rank x)) x (omega arith)
