-- ===== src/Execution/Pipelines/Link.antt =====
-- `addDependency` of src/execution/pipeline.ts on a graph that is being built.
use query_engine.Prelude.{
  ℕ, ◌≡◌, refl, sym, subst, ap, ◌∙◌, true, false, ◌&&◌, ◌||◌, Option, none, some, List, [], ◌∷◌,
  ◌==◌, ==_iff, arith, Bool-cases, Option-cases, inl, inr,
}
use mathlib.Core.Option.{some-injective}
use query_engine.Execution.Pipelines.Sets.{mem, delete, mem-insert, mem-delete, is_nil-mem}
use query_engine.Execution.Pipelines.{
  Pipeline, PipelineGraph, needs, feeds, put, pipeline_graph, create_pipeline, add_dependency,
  linked,
}
use query_engine.Execution.Pipelines.Invariant.{
  present, pends, runs, is_over, waits_for, feeds_to, Consistent,
}
use query_engine.Execution.Pipelines.Build.{
  Built, Built-create, Built-empty, BuildStep, creates, depends, build,
}

module _ (g : PipelineGraph) (b : Built g) (id other : ℕ) (p d1 : Pipeline)
    (e : g.pipelines id ≡ some p) (e1 : (put id (needs other p) g).pipelines other ≡ some d1) where
  abbrev needing : PipelineGraph
  needing = put id (needs other p) g

  abbrev joined : PipelineGraph
  joined = record (put other (feeds id d1) needing) { ready_ids = delete id g.ready_ids }

  needing-same :
      (x : ℕ)
      → (present (needing.pipelines x) ≡ present (g.pipelines x))
        × (pends (needing.pipelines x) ≡ pends (g.pipelines x))
        × (feeds_to (needing.pipelines x) ≡ feeds_to (g.pipelines x))
        × ((d : ℕ)
            → mem d (waits_for (needing.pipelines x))
              ≡ (mem d (waits_for (g.pipelines x)) || ((id == x) && (d == other))))
  needing-same x = elim (Bool-cases (id == x)) [
    | inl s ↦
        let here = ap g.pipelines (sym ((==_iff id x).0 s)) ∙ e in
        rw (s, here) (refl, refl, refl, λ d. ground (arith, mem-insert d other p.dependencies))
    | inr s ↦ rw s (refl, refl, refl, λ d. ground arith)
  ]

  joined-same :
      (x : ℕ)
      → (present (joined.pipelines x) ≡ present (needing.pipelines x))
        × (pends (joined.pipelines x) ≡ pends (needing.pipelines x))
        × (waits_for (joined.pipelines x) ≡ waits_for (needing.pipelines x))
        × ((y : ℕ)
            → mem y (feeds_to (joined.pipelines x))
              ≡ (mem y (feeds_to (needing.pipelines x)) || ((other == x) && (y == id))))
  joined-same x = elim (Bool-cases (other == x)) [
    | inl s ↦
        let here = ap needing.pipelines (sym ((==_iff other x).0 s)) ∙ e1 in
        rw s (
          sym (ap present here),
          sym (ap pends here),
          sym (ap waits_for here),
          λ y. ground (arith, mem-insert y id d1.dependents, ap (λ o. mem y (feeds_to o)) here),
        )
    | inr s ↦ rw s (refl, refl, refl, λ y. ground arith)
  ]

  id-there : present (g.pipelines id) ≡ true
  id-there = ap present e

  other-there : present (g.pipelines other) ≡ true
  other-there = sym ((needing-same other).0) ∙ ap present e1

  joined-feeds :
      (x y : ℕ)
      → mem y (feeds_to (joined.pipelines x))
        ≡ (mem y (feeds_to (g.pipelines x)) || ((other == x) && (y == id)))
  joined-feeds x y =
      (joined-same x).3 y ∙ ap (λ l. mem y l || ((other == x) && (y == id))) ((needing-same x).2)

  joined-waits :
      (x d : ℕ)
      → mem d (waits_for (joined.pipelines x))
        ≡ (mem d (waits_for (g.pipelines x)) || ((id == x) && (d == other)))
  joined-waits x d = ap (mem d) ((joined-same x).2) ∙ (needing-same x).3 d

  joined-present : (x : ℕ) → present (joined.pipelines x) ≡ present (g.pipelines x)
  joined-present x = (joined-same x).0 ∙ (needing-same x).0

  joined-pends : (x : ℕ) → pends (joined.pipelines x) ≡ pends (g.pipelines x)
  joined-pends x = (joined-same x).1 ∙ (needing-same x).1

  at_id : (x : ℕ) → (x == id) ≡ true → present (joined.pipelines x) ≡ true
  at_id x s = joined-present x ∙ ap (λ z. present (g.pipelines z)) ((==_iff x id).0 s) ∙ id-there

  at_other : (x : ℕ) → (x == other) ≡ true → present (joined.pipelines x) ≡ true
  at_other x s =
      joined-present x ∙ ap (λ z. present (g.pipelines z)) ((==_iff x other).0 s) ∙ other-there

  still_free :
      (x : ℕ)
      → waits_for (joined.pipelines x) ≡ []
      → (waits_for (g.pipelines x) ≡ []) × ((id == x) ≡ false)
  still_free x n =
      let none_here = λ (d : ℕ). (sym (joined-waits x d) ∙ ap (mem d) n) in
      (
        is_nil-mem (waits_for (g.pipelines x)) (λ d. ground (arith, none_here d)),
        ground (arith, none_here other, ==_iff other other),
      )

  Built-joined : Built joined
  Built-joined = record {
    bounded = λ x k. b.bounded x (sym (joined-present x) ∙ k);
    awaited = λ x d k. elim (Bool-cases (mem d (waits_for (g.pipelines x)))) [
      | inl i ↦
          let before = b.awaited x d i in
          (joined-present d ∙ before.0, joined-feeds d x ∙ ground (arith, before.1))
      | inr i ↦
          let new : ((id == x) && (d == other)) ≡ true = ground (arith, joined-waits x d) in
          (
            at_other d (ground arith),
            joined-feeds d x
                ∙ ground (arith, ==_iff id x, ==_iff d other, ==_iff x id, ==_iff other d),
          )
    ];
    fed = λ x y k. elim (Bool-cases (mem y (feeds_to (g.pipelines x)))) [
      | inl i ↦ joined-present y ∙ b.fed x y i
      | inr i ↦ at_id y (ground (arith, joined-feeds x y))
    ];
    fresh = λ x. joined-pends x ∙ b.fresh x ∙ sym (joined-present x);
    offered = λ x k n.
        let free = still_free x n in
        ground (
          arith,
          free.1,
          b.offered x (sym (joined-pends x) ∙ k) (free.0),
          mem-delete x id g.ready_ids,
        );
  }

linked-Built :
    (g : PipelineGraph) (b : Built g) (id other : ℕ) (p : Pipeline) (e : g.pipelines id ≡ some p)
    (h : PipelineGraph)
    → let m = put id (needs other p) g in linked id other (m.pipelines other) m ≡ some h → Built h
linked-Built g b id other p e h k =
    elim (Option-cases ((put id (needs other p) g).pipelines other)) [
      | inl n ↦ cc (rw n at k)
      | inr (d, e1) ↦
          let k1 : some (joined g b id other p d e e1) ≡ some h = rw e1 at k in
          subst Built (some-injective _ _ k1) (Built-joined g b id other p d e e1)
    ]

add_dependency-Built :
    (g : PipelineGraph)
    → Built g
    → (id other : ℕ) (h : PipelineGraph) → add_dependency id other g ≡ some h
    → Built h
unfolding add_dependency
add_dependency-Built g b id other h k = elim (Option-cases (g.pipelines id)) [
  | inl n ↦ cc (rw n at k)
  | inr (p, e) ↦ elim (Option-cases (g.pipelines other)) [
    | inl n ↦ cc (rw (e, n) at k)
    | inr (d, e1) ↦ linked-Built g b id other p e h (rw (e, e1) at k)
  ]
]

build-Built :
    (steps : List BuildStep) (g h : PipelineGraph) → Built g → build steps g ≡ some h → Built h
build-Built [] g h b k = subst Built (some-injective _ _ k) b
build-Built (creates ∷ steps) g h b k = build-Built steps (create_pipeline g) h (Built-create g b) k
build-Built (depends id other ∷ steps) g h b k = elim (Option-cases (add_dependency id other g)) [
  | inl n ↦ cc (rw n at k)
  | inr (m, e) ↦ build-Built steps m h (add_dependency-Built g b id other m e) (rw e at k)
]

pends-free : (o : Option Pipeline) → pends o ≡ present o → pends o ≡ false → waits_for o ≡ []
pends-free none h k = refl
pends-free (some p) h k = cc (sym h ∙ k)

fresh-not_over : (o : Option Pipeline) → pends o ≡ present o → is_over o ≡ false
fresh-not_over none h = refl
fresh-not_over (some p) h = ground arith

fresh-not_running : (o : Option Pipeline) → pends o ≡ present o → runs o ≡ false
fresh-not_running none h = refl
fresh-not_running (some p) h = ground arith

Built-Consistent :
    (g : PipelineGraph)
    → Built g
    → Consistent (λ x. waits_for (g.pipelines x)) (λ x. present (g.pipelines x)) g []
Built-Consistent g b = record {
  kept = λ x k. k;
  bounded = b.bounded;
  awaited = λ x d k.
      let before = b.awaited x d k in
      (before.0, fresh-not_over (g.pipelines d) (b.fresh d), before.1, k);
  fed = b.fed;
  clean = λ x k. ground (arith, b.fresh x);
  started = λ x k. pends-free (g.pipelines x) (b.fresh x) k;
  offered = b.offered;
  active = λ x. fresh-not_running (g.pipelines x) (b.fresh x);
  met = λ x d k. ground (arith, k);
}

pub build-Consistent :
    (steps : List BuildStep) (g : PipelineGraph)
    → build steps pipeline_graph ≡ some g
    → Consistent (λ x. waits_for (g.pipelines x)) (λ x. present (g.pipelines x)) g []
build-Consistent steps g k = Built-Consistent g (build-Built steps pipeline_graph g Built-empty k)
