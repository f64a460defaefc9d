-- ===== src/Parallel/Morsels/Partition.antt =====
-- The units of the ranges that workers claim from src/parallel/morsel-scheduler.ts.
use query_engine.Prelude.{
  count_up, ℕ, zero, suc, ◌+◌, ◌-◌, ◌*◌, ◌≤◌, ◌<◌, min, ◌≡◌, ◌⊎◌, refl, sym, ap, ap₂, ◌∙◌, none,
  some, List, [], ◌∷◌, ◌++◌, length, arith, ltb, ltb→lt, Bool-cases, inl, inr,
}
use query_engine.Prelude.Int.{pos, ◌+ℤ◌, pos_part}
use query_engine.Parallel.Morsels.{
  Morsels, MorselRange, Worker, to_int32, min_ℤ, range_at, next, claims, morsel_scheduler,
}

abbrev pub units : MorselRange → List ℕ
units r = count_up (pos_part r.start) (pos_part r.stop - pos_part r.start)

abbrev pub claimed_units : List (Worker × MorselRange) → List ℕ
claimed_units [] = []
claimed_units ((w, r) ∷ rest) = units r ++ claimed_units rest

count_up-append :
    (start m n k : ℕ) → k ≡ m + n → count_up start k ≡ count_up start m ++ count_up (start + m) n
count_up-append start zero n k e =
    ap₂ count_up {x = start} {y = start + 0} {u = k} {v = n} (omega arith) (omega arith)
count_up-append start (suc m) n zero e = absurd (omega arith)
count_up-append start (suc m) n (suc k) e = ap (start ∷◌) (
    count_up-append (start + 1) m n k (omega arith)
    ∙ ap (λ i. count_up (start + 1) m ++ count_up i n) (omega arith))

module _ (s : Morsels) where
  pub range_at-below :
      (c : ℕ)
      → c < s.total_units
      → range_at s (pos c)
        ≡ some (record { start = pos c; stop = pos (min (c + s.units_per_morsel) s.total_units) })
  unfolding range_at min_ℤ ◌+ℤ◌
  range_at-below c h = ground arith

  pub range_at-done : (c : ℕ) → s.total_units ≤ c → range_at s (pos c) ≡ none
  unfolding range_at
  range_at-done c h = ground arith

pub to_int32-small : (c : ℕ) → c < 2147483648 → to_int32 c ≡ pos c
unfolding to_int32
to_int32-small c h = ground arith

count_up-start : (a b n : ℕ) → (n ≡ 0) ⊎ (a ≡ b) → count_up a n ≡ count_up b n
count_up-start a b n (inl e) = rw e refl
count_up-start a b n (inr e) = ap (λ i. count_up i n) e

-- The units of one claim, up to `left` of them, and those of the claims after it.
pub count_up-claim :
    (c u more total : ℕ)
    → count_up c (min (c + u) total - c) ++ count_up (c + u) (min more (total - (c + u)))
      ≡ count_up c (min (u + more) (total - c))
count_up-claim c u more total =
    let taken = min (c + u) total - c in
    let left = min more (total - (c + u)) in
    ap (count_up c taken ++◌) (count_up-start (c + u) (c + taken) left (ground arith))
    ∙ sym (count_up-append c taken left (min (u + more) (total - c)) (omega arith))

-- As long as the counter does not wrap, the claims from a counter on go through the units in order.
claims-count_up :
    (ws : List Worker) (s : Morsels)
    → s.counter + length ws * s.units_per_morsel < 2147483648
    → claimed_units (claims ws s)
      ≡ count_up s.counter (min (length ws * s.units_per_morsel) (s.total_units - s.counter))
unfolding claims next
claims-count_up [] s h = ap (count_up s.counter) {x = 0} (omega arith)
claims-count_up (w ∷ ws) s h =
    let c = s.counter in
    let u = s.units_per_morsel in
    let more = length ws * u in
    let moved =
      claims-count_up ws (next s).1 (omega arith)
      ∙ ap₂ (λ i n. count_up i n) {y = c + u} {v = min more (s.total_units - (c + u))} (omega arith)
          (omega arith) in
    rw (to_int32-small c (omega arith)) (elim (Bool-cases (ltb c s.total_units)) [
      | inl e ↦ rw (range_at-below s c (ltb→lt _ _ e)) (
          ap (count_up c (min (c + u) s.total_units - c) ++◌) moved
          ∙ count_up-claim c u more s.total_units
          ∙ ap (count_up c) (omega arith))
      | inr e ↦ rw (range_at-done s c (ground arith)) (
          moved
          ∙ ap (count_up (c + u)) {y = 0} (ground arith)
          ∙ ap (count_up c) {x = 0} (ground arith))
    ])

-- Whatever the workers and the order of their calls: if they call `next` often enough for all units
-- and not so often that the counter passes 2^31, the units of the ranges they get are those below
-- the total, each once and in order.
pub claims-partition :
    (ws : List Worker) (total per_morsel : ℕ)
    → total ≤ length ws * (morsel_scheduler total per_morsel).units_per_morsel
    → length ws * (morsel_scheduler total per_morsel).units_per_morsel < 2147483648
    → claimed_units (claims ws (morsel_scheduler total per_morsel)) ≡ count_up 0 total
unfolding morsel_scheduler
claims-partition ws total per_morsel enough small =
    claims-count_up ws (morsel_scheduler total per_morsel) (omega arith)
    ∙ ap (count_up 0) (omega arith)
