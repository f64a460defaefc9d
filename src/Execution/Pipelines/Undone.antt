-- ===== src/Execution/Pipelines/Undone.antt =====
-- How many ids of the graph of src/execution/pipeline.ts are not those of a finished pipeline.
use query_engine.Prelude.{
  ℕ, zero, suc, ◌+◌, ◌≤◌, ◌<◌, ◌≡◌, refl, ap, Bool, false, ◌||◌, ◌==◌, ==_iff, if◌then◌else◌, arith,
  Bool-cases, inl, inr,
}
use query_engine.Execution.Pipelines.{PipelineGraph}
use query_engine.Execution.Pipelines.Invariant.{is_over}

abbrev pub count_false : (ℕ → Bool) → ℕ → ℕ
count_false p zero = 0
count_false p (suc n) = (if p n then 0 else 1) + count_false p n

abbrev pub undone : PipelineGraph → ℕ
undone g = count_false (λ x. is_over (g.pipelines x)) g.next_id

pub count_false-same :
    (p q : ℕ → Bool) → ((x : ℕ) → q x ≡ p x) → (n : ℕ) → count_false q n ≡ count_false p n
count_false-same p q h zero = refl
count_false-same p q h (suc n) = ground (arith, count_false-same p q h n, h n)

count_false-le :
    (p q : ℕ → Bool) (id : ℕ)
    → ((x : ℕ) → q x ≡ (p x || (id == x)))
    → (n : ℕ) → count_false q n ≤ count_false p n
count_false-le p q id h zero = omega arith
count_false-le p q id h (suc n) = ground (arith, count_false-le p q id h n, h n)

pub count_false-less :
    (p q : ℕ → Bool) (id : ℕ)
    → ((x : ℕ) → q x ≡ (p x || (id == x)))
    → p id ≡ false
    → (n : ℕ) → id < n
    → count_false q n < count_false p n
count_false-less p q id h k zero l = absurd (omega arith)
count_false-less p q id h k (suc n) l = elim (Bool-cases (id == n)) [
  | inl e ↦ ground (arith, count_false-le p q id h n, h n, ap p ((==_iff id n).0 e))
  | inr e ↦ ground (arith, count_false-less p q id h k n, h n, ==_iff id n)
]

pub count_false-bound : (p : ℕ → Bool) (n : ℕ) → count_false p n ≤ n
count_false-bound p zero = omega arith
count_false-bound p (suc n) = ground (arith, count_false-bound p n)

pub count_false-some : (p : ℕ → Bool) (id n : ℕ) → p id ≡ false → id < n → 1 ≤ count_false p n
count_false-some p id zero h l = absurd (omega arith)
count_false-some p id (suc n) h l = elim (Bool-cases (id == n)) [
  | inl e ↦ ground (arith, ap p ((==_iff id n).0 e))
  | inr e ↦ ground (arith, count_false-some p id n h, ==_iff id n)
]
