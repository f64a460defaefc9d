-- ===== src/Execution/Pipelines/Release.antt =====
-- `markPipelineDone` of src/execution/pipeline.ts.
use query_engine.Prelude.{
  ℕ, ◌≡◌, refl, sym, subst, ap, ◌∙◌, Bool, true, false, not, ◌&&◌, some, List, [], ◌∷◌, ◌==◌,
  ==_iff, if◌then◌else◌, arith, Bool-cases, Option-cases, inl, inr,
}
use query_engine.Execution.Pipelines.Sets.{mem, insert, delete, is_nil, mem-insert, mem-delete}
use query_engine.Execution.Pipelines.{Pipeline, PipelineGraph, is_pending, release_one, release}
use query_engine.Execution.Pipelines.Invariant.{present, pends, runs, is_over, waits_for, feeds_to}

-- `h` is `g` after `id` was taken off the dependencies of the pipelines in `dependents`.
pub record Freed (id : ℕ) (dependents : List ℕ) (g h : PipelineGraph) : Type 0 where
  pub same_next : h.next_id ≡ g.next_id
  pub same_present : (x : ℕ) → present (h.pipelines x) ≡ present (g.pipelines x)
  pub same_pends : (x : ℕ) → pends (h.pipelines x) ≡ pends (g.pipelines x)
  pub same_runs : (x : ℕ) → runs (h.pipelines x) ≡ runs (g.pipelines x)
  pub same_over : (x : ℕ) → is_over (h.pipelines x) ≡ is_over (g.pipelines x)
  pub same_feeds : (x : ℕ) → feeds_to (h.pipelines x) ≡ feeds_to (g.pipelines x)
  pub others :
      (x : ℕ) → mem x dependents ≡ false → waits_for (h.pipelines x) ≡ waits_for (g.pipelines x)
  pub freed :
      (x d : ℕ)
      → mem x dependents ≡ true
      → mem d (waits_for (h.pipelines x)) ≡ (mem d (waits_for (g.pipelines x)) && not (id == d))
  pub keeps_ready : (x : ℕ) → mem x g.ready_ids ≡ true → mem x h.ready_ids ≡ true
  pub made_ready :
      (x : ℕ)
      → mem x dependents ≡ true
      → pends (h.pipelines x) ≡ true
      → waits_for (h.pipelines x) ≡ []
      → mem x h.ready_ids ≡ true

release_one-same :
    (id y x : ℕ) (p : Pipeline) (g : PipelineGraph)
    → g.pipelines y ≡ some p
    → let h = release_one id y p g in
      (present (h.pipelines x) ≡ present (g.pipelines x))
      × (pends (h.pipelines x) ≡ pends (g.pipelines x))
      × (runs (h.pipelines x) ≡ runs (g.pipelines x))
      × (is_over (h.pipelines x) ≡ is_over (g.pipelines x))
      × (feeds_to (h.pipelines x) ≡ feeds_to (g.pipelines x))
unfolding release_one
release_one-same id y x p g e = elim (Bool-cases (y == x)) [
  | inl s ↦
      let here = ap g.pipelines (sym ((==_iff y x).0 s)) ∙ e in
      rw (s, here) (refl, refl, refl, refl, refl)
  | inr s ↦ rw s (refl, refl, refl, refl, refl)
]

release_one-waits :
    (id y x : ℕ) (p : Pipeline) (g : PipelineGraph)
    → g.pipelines y ≡ some p
    → waits_for ((release_one id y p g).pipelines x)
      ≡ (if y == x then delete id (waits_for (g.pipelines x)) else waits_for (g.pipelines x))
unfolding release_one
release_one-waits id y x p g e = elim (Bool-cases (y == x)) [
  | inl s ↦ let here = ap g.pipelines (sym ((==_iff y x).0 s)) ∙ e in rw (s, here) refl
  | inr s ↦ rw s refl
]

release_one-ready :
    (id y x : ℕ) (p : Pipeline) (g : PipelineGraph)
    → mem x g.ready_ids ≡ true
    → mem x (release_one id y p g).ready_ids ≡ true
unfolding release_one
release_one-ready id y x p g h =
    elim (Bool-cases (is_nil (delete id p.dependencies) && is_pending p.state)) [
      | inl e ↦ rw e (ground (arith, mem-insert x y g.ready_ids))
      | inr e ↦ rw e h
    ]

release_one-next :
    (id y : ℕ) (p : Pipeline) (g : PipelineGraph) → (release_one id y p g).next_id ≡ g.next_id
unfolding release_one
release_one-next id y p g = refl

release_one-here :
    (id y : ℕ) (p : Pipeline) (g : PipelineGraph)
    → (release_one id y p g).pipelines y
      ≡ some (record p { dependencies = delete id p.dependencies })
unfolding release_one
release_one-here id y p g = rw ((==_iff y y).1 refl) refl

is_nil-nil : (js : List ℕ) → js ≡ [] → is_nil js ≡ true
is_nil-nil js e = rw e refl

inserted :
    (b : Bool) (y : ℕ) (js : List ℕ) → b ≡ true → mem y (if b then insert y js else js) ≡ true
inserted b y js e = rw e (ground (arith, mem-insert y y js))

release_one-offers :
    (id y : ℕ) (p : Pipeline) (g : PipelineGraph)
    → pends ((release_one id y p g).pipelines y) ≡ true
    → waits_for ((release_one id y p g).pipelines y) ≡ []
    → mem y (release_one id y p g).ready_ids ≡ true
unfolding release_one
release_one-offers id y p g pend free =
    let here = release_one-here id y p g in
    let fresh = sym (ap pends here) ∙ pend in
    let empty = is_nil-nil (delete id p.dependencies) (sym (ap waits_for here) ∙ free) in
    inserted (is_nil (delete id p.dependencies) && is_pending p.state) y g.ready_ids
      (rw (empty, fresh) refl)

module _ (id y : ℕ) (rest : List ℕ) (p : Pipeline) (g h : PipelineGraph)
    (e : g.pipelines y ≡ some p) (f : Freed id rest (release_one id y p g) h) where
  m : PipelineGraph
  m = release_one id y p g

  Freed-cons : Freed id (y ∷ rest) g h
  unfolding m
  Freed-cons = record {
    same_next = f.same_next ∙ release_one-next id y p g;
    same_present = λ x. f.same_present x ∙ (release_one-same id y x p g e).0;
    same_pends = λ x. f.same_pends x ∙ (release_one-same id y x p g e).1;
    same_runs = λ x. f.same_runs x ∙ (release_one-same id y x p g e).2;
    same_over = λ x. f.same_over x ∙ (release_one-same id y x p g e).3;
    same_feeds = λ x. f.same_feeds x ∙ (release_one-same id y x p g e).4;
    others = λ x k. ground (arith, f.others x, release_one-waits id y x p g e);
    freed = λ x d k. elim (Bool-cases (mem x rest)) [
      | inl i ↦ ground (
        arith,
        f.freed x d i,
        release_one-waits id y x p g e,
        mem-delete d id (waits_for (g.pipelines x)),
      )
      | inr i ↦ ground (
        arith,
        f.others x i,
        release_one-waits id y x p g e,
        mem-delete d id (waits_for (g.pipelines x)),
      )
    ];
    keeps_ready = λ x k. f.keeps_ready x (release_one-ready id y x p g k);
    made_ready = λ x k pend free. elim (Bool-cases (mem x rest)) [
      | inl i ↦ f.made_ready x i pend free
      | inr i ↦
          let same = (==_iff x y).0 (ground arith) in
          let pend_y = sym (f.same_pends x) ∙ pend in
          let free_y = sym (f.others x i) ∙ free in
          f.keeps_ready x (
            subst
              (λ z.
                pends (m.pipelines z) ≡ true
                → waits_for (m.pipelines z) ≡ []
                → mem z m.ready_ids ≡ true)
              (sym same) (release_one-offers id y p g) pend_y free_y)
    ];
  }

Freed-nil : (id : ℕ) (g : PipelineGraph) → Freed id [] g g
Freed-nil id g = record {
  same_next = refl;
  same_present = λ x. refl;
  same_pends = λ x. refl;
  same_runs = λ x. refl;
  same_over = λ x. refl;
  same_feeds = λ x. refl;
  others = λ x k. refl;
  freed = λ x d k. cc k;
  keeps_ready = λ x k. k;
  made_ready = λ x k. cc k;
}

-- `release` finds every dependent, and frees it.
pub release-Freed :
    (id : ℕ) (dependents : List ℕ) (g : PipelineGraph)
    → ((x : ℕ) → mem x dependents ≡ true → present (g.pipelines x) ≡ true)
    → (h : PipelineGraph) × (release id dependents g ≡ some h) × Freed id dependents g h
unfolding release
release-Freed id [] g there = (g, refl, Freed-nil id g)
release-Freed id (y ∷ rest) g there = elim (Option-cases (g.pipelines y)) [
  | inl e ↦ cc (there y (ground (arith, ==_iff y y)), e)
  | inr (p, e) ↦
      let go =
        release-Freed id rest (release_one id y p g)
          λ x i. (release_one-same id y x p g e).0 ∙ there x (ground (arith, i)) in
      (go.0, rw e (go.1), Freed-cons id y rest p g (go.0) e (go.2))
]
