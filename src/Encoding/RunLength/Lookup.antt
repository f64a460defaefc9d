-- ===== src/Encoding/RunLength/Lookup.antt =====
-- The value that the runs of src/storage/encoding/run-length.ts give at an index.
use query_engine.Prelude.{
  ℕ, zero, suc, ◌+◌, ◌<◌, ◌≤◌, ◌≡◌, refl, ap, subst, ◌∙◌, ◌↔◌, Bool, true, some, List, [], ◌∷◌,
  length, get_elem?, leb, if◌then◌else◌, arith, Bool-cases, inl, inr,
}
use query_engine.Encoding.RunLength.{Run, collect_from, collect_runs, count_from, run_count}

-- The value of the last run that starts at or before `i`.
unfoldable pub run_value : {V : Type 0} → V → List (Run V) → ℕ → V
run_value current [] i = current
run_value current ((start, v) ∷ runs) i = if leb start i then run_value v runs i else current

-- The starts grow, all from `low` on.
abbrev pub Increasing : {V : Type 0} → ℕ → List (Run V) → Type 0
Increasing low [] = Unit
Increasing low ((start, v) ∷ runs) = (low ≤ start) × Increasing (start + 1) runs

-- All starts lie below `n`.
abbrev pub Below : {V : Type 0} → ℕ → List (Run V) → Type 0
Below n [] = Unit
Below n ((start, v) ∷ runs) = (start < n) × Below n runs

pub run_value-before :
    {V : Type 0} (current : V) (runs : List (Run V)) (low i : ℕ)
    → Increasing low runs
    → i < low
    → run_value current runs i ≡ current
unfolding run_value
run_value-before current [] low i inc h = refl
run_value-before current ((start, v) ∷ runs) low i inc h = ground arith

leb-add : (a b : ℕ) → leb a (a + b) ≡ true
leb-add a b = ground arith

Increasing-weaken :
    {V : Type 0} (low : ℕ) (runs : List (Run V)) → Increasing (low + 1) runs → Increasing low runs
Increasing-weaken low [] inc = tt
Increasing-weaken low ((start, v) ∷ runs) inc = (omega arith, inc.1)

pub Below-eq : {V : Type 0} {m n : ℕ} (runs : List (Run V)) → m ≡ n → Below m runs → Below n runs
Below-eq runs e b = subst (λ k. Below k runs) e b

module _ {V : Type 0} (same : V → V → Bool)
    (same_iff : (a b : V) → (same a b ≡ true) ↔ (a ≡ b)) where
  pub collect_from-Increasing :
      (index : ℕ) (current : V) (vs : List V)
      → Increasing index (collect_from same index current vs)
  unfolding collect_from
  collect_from-Increasing index current [] = tt
  collect_from-Increasing index current (v ∷ vs) = elim (Bool-cases (same v current)) [
    | inl e ↦ rw e (
        Increasing-weaken index (collect_from same (index + 1) current vs)
          (collect_from-Increasing (index + 1) current vs))
    | inr e ↦ rw e (omega arith, collect_from-Increasing (index + 1) v vs)
  ]

  pub collect_from-Below :
      (index : ℕ) (current : V) (vs : List V)
      → Below (index + length vs) (collect_from same index current vs)
  unfolding collect_from
  collect_from-Below index current [] = tt
  collect_from-Below index current (v ∷ vs) = elim (Bool-cases (same v current)) [
    | inl e ↦ rw e (
        Below-eq (collect_from same (index + 1) current vs) (omega arith)
          (collect_from-Below (index + 1) current vs))
    | inr e ↦ rw e (
      omega arith,
      Below-eq (collect_from same (index + 1) v vs) (omega arith)
          (collect_from-Below (index + 1) v vs),
    )
  ]

  pub run_value-collect_from :
      (index : ℕ) (current : V) (vs : List V) (i : ℕ)
      → i < length vs
      → get_elem? vs i ≡ some (run_value current (collect_from same index current vs) (index + i))
  unfolding collect_from run_value
  run_value-collect_from index current [] i h = elim h [ ]
  run_value-collect_from index current (v ∷ vs) zero h = elim (Bool-cases (same v current)) [
    | inl e ↦ rw e (
        rw
          (run_value-before current (collect_from same (index + 1) current vs) (index + 1)
            (index + 0) (collect_from-Increasing (index + 1) current vs) (omega arith))
          (ap some ((same_iff v current).0 e)))
    | inr e ↦ rw e (
        rw (leb-add index 0) (
          rw (
            run_value-before v (collect_from same (index + 1) v vs) (index + 1) (index + 0)
              (collect_from-Increasing (index + 1) v vs) (omega arith))))
  ]
  run_value-collect_from index current (v ∷ vs) (suc i) h = elim (Bool-cases (same v current)) [
    | inl e ↦ rw e (
        run_value-collect_from (index + 1) current vs i (omega arith)
        ∙ ap (λ j. some (run_value current (collect_from same (index + 1) current vs) j))
            (omega arith))
    | inr e ↦
        rw (e, leb-add index (suc i))
          (run_value-collect_from (index + 1) v vs i (omega arith)
            ∙ ap (λ j. some (run_value v (collect_from same (index + 1) v vs) j)) (omega arith))
  ]

module _ {V : Type 0} (same : V → V → Bool) where
  length-collect_from :
      (index count : ℕ) (current : V) (vs : List V)
      → count + length (collect_from same index current vs) ≡ count_from same count current vs
  unfolding collect_from count_from
  length-collect_from index count current [] = omega arith
  length-collect_from index count current (v ∷ vs) = elim (Bool-cases (same v current)) [
    | inl e ↦ rw e (length-collect_from (index + 1) count current vs)
    | inr e ↦ rw e (omega (arith, length-collect_from (index + 1) (count + 1) v vs))
  ]

  -- The scan that sizes the arrays counts exactly the runs that are collected from a column that is
  -- not empty.
  pub length-collect_runs :
      (v : V) (vs : List V) → length (collect_runs same v vs) ≡ run_count same v vs
  unfolding collect_runs run_count
  length-collect_runs v vs = omega (arith, length-collect_from 1 1 v vs)
