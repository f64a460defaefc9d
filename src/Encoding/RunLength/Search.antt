-- ===== src/Encoding/RunLength/Search.antt =====
-- The binary search `runIndexOf` of src/storage/encoding/run-length.ts.
use query_engine.Prelude.{
  ℕ, zero, suc, ◌+◌, ◌-◌, ◌/◌, ◌<◌, ◌≤◌, ◌≡◌, refl, ap, sym, ◌∙◌, ◌↔◌, Bool, true, some, List, [],
  ◌∷◌, length, get_elem?, get_or, leb, ltb, leb→le, le→leb, arith, Bool-cases, inl, inr,
}
use query_engine.Encoding.RunLength.{
  Run, collect_from, collect_runs, starts_of, values_of, search_loop, run_index_of, value_at,
}
use query_engine.Encoding.RunLength.Lookup.{run_value, Increasing, collect_from-Increasing}
use query_engine.Encoding.RunLength.Decode.{run_value-collect_runs}

-- `r` is the last position whose start is at most `index`.
record IsLast (starts : List ℕ) (index r : ℕ) : Type 0 where
  inside : r < length starts
  reached : get_or starts r 0 ≤ index
  next_later : (j : ℕ) → r < j → j < length starts → index < get_or starts j 0

module _ (starts : List ℕ) (index : ℕ)
    (ordered : (i j : ℕ) → i ≤ j → j < length starts → get_or starts i 0 ≤ get_or starts j 0) where
  search_loop-IsLast :
      (fuel low high : ℕ)
      → high < low + fuel
      → low ≤ high
      → high < length starts
      → get_or starts low 0 ≤ index
      → ((j : ℕ) → high < j → j < length starts → index < get_or starts j 0)
      → IsLast starts index (search_loop fuel starts index low high)
  unfolding search_loop
  search_loop-IsLast zero low high enough order inside reached later = absurd (omega arith)
  search_loop-IsLast (suc fuel) low high enough order inside reached later =
      let mid = (low + high + 1) / 2 in
      elim (Bool-cases (ltb low high)) [
        | inr stop ↦ rw stop (record {
          inside = omega arith;
          reached = reached;
          next_later = λ j p q. later j (ground arith) q;
        })
        | inl go ↦ elim (Bool-cases (leb (get_or starts mid 0) index)) [
          | inl up ↦
              rw (go, up)
                (search_loop-IsLast fuel mid high (ground arith) (ground arith) inside
                  (leb→le _ _ up) later)
          | inr down ↦
              rw (go, down)
                (search_loop-IsLast fuel low (mid - 1) (ground arith) (ground arith) (ground arith)
                  reached (λ j p q. ground (arith, ordered mid j (ground arith) q)))
        ]
      ]

first-le :
    {V : Type 0} (low : ℕ) (runs : List (Run V)) (r : ℕ)
    → Increasing low runs
    → r < length (starts_of runs)
    → low ≤ get_or (starts_of runs) r 0
first-le low [] r inc h = elim h [ ]
first-le low ((s, v) ∷ runs) zero inc h = inc.0
first-le low ((s, v) ∷ runs) (suc r) inc h =
    omega (arith, first-le (s + 1) runs r inc.1 (omega arith))

starts-ordered :
    {V : Type 0} (low : ℕ) (runs : List (Run V))
    → Increasing low runs
    → (i j : ℕ) → i ≤ j
    → j < length (starts_of runs)
    → get_or (starts_of runs) i 0 ≤ get_or (starts_of runs) j 0
starts-ordered low [] inc i j h k = elim k [ ]
starts-ordered low ((s, v) ∷ runs) inc zero zero h k = omega arith
starts-ordered low ((s, v) ∷ runs) inc zero (suc j) h k =
    omega (arith, first-le (s + 1) runs j inc.1 (omega arith))
starts-ordered low ((s, v) ∷ runs) inc (suc i) zero h k = absurd (omega arith)
starts-ordered low ((s, v) ∷ runs) inc (suc i) (suc j) h k =
    starts-ordered (s + 1) runs inc.1 i j (omega arith) (omega arith)

-- The value of the last run that has started is the value that the runs give.
run_value-IsLast :
    {V : Type 0} (blank v : V) (s : ℕ) (runs : List (Run V)) (index r : ℕ)
    → Increasing (s + 1) runs
    → IsLast (starts_of ((s, v) ∷ runs)) index r
    → get_or (values_of ((s, v) ∷ runs)) r blank ≡ run_value v runs index
unfolding run_value
run_value-IsLast blank v s [] index zero inc last = refl
run_value-IsLast blank v s [] index (suc r) inc last = absurd (omega (arith, last.inside))
run_value-IsLast blank v s ((t, w) ∷ runs) index zero inc last =
    ground (arith, last.next_later 1 (omega arith) (omega arith))
run_value-IsLast blank v s ((t, w) ∷ runs) index (suc r) inc last =
    rw
      (le→leb t index (
        omega (
          arith,
          first-le t ((t, w) ∷ runs) r (omega arith, inc.1) (omega (arith, last.inside)),
          last.reached,
        )))
      (run_value-IsLast blank w t runs index r inc.1 (record {
        inside = omega (arith, last.inside);
        reached = last.reached;
        next_later = λ j p q. last.next_later (suc j) (omega arith) (omega arith);
      }))

module _ {V : Type 0} (same : V → V → Bool)
    (same_iff : (a b : V) → (same a b ≡ true) ↔ (a ≡ b)) where
  -- Where `===` is equality on the values, reading position `i` of an encoded column, by binary
  -- search over the runs collected from it, gives the value of the column at `i`, for every `i`
  -- below the column's length.
  pub value_at-collect_runs :
      (blank v : V) (vs : List V) (i : ℕ)
      → i < length (v ∷ vs)
      → get_elem? (v ∷ vs) i ≡ some (value_at blank (collect_runs same v vs) i)
  unfolding value_at collect_runs run_index_of
  value_at-collect_runs blank v vs i h =
      let runs = collect_from same 1 v vs in
      let inc = collect_from-Increasing same same_iff 1 v vs in
      let starts = starts_of ((0, v) ∷ runs) in
      run_value-collect_runs same same_iff v vs i h
      ∙ ap some (
          sym (
            run_value-IsLast blank v 0 runs i _ inc (
              search_loop-IsLast starts i (starts-ordered 0 ((0, v) ∷ runs) (omega arith, inc))
                (length starts) 0 (length starts - 1) (omega arith) (omega arith) (omega arith)
                (omega arith) (λ j p q. absurd (omega arith)))))
