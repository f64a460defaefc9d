-- ===== src/Encoding/RunLength.antt =====
-- src/storage/encoding/run-length.ts, and the scan of integer-values.ts that sizes its arrays.
--
-- A column is a list; `same` is `===` on its values, which are all numbers or all bigints. The two
-- arrays of a vector are one list of runs, (start, value). A column is not empty: the caller
-- encodes no empty column.
pub mod Lookup
pub mod Decode
pub mod Search
use query_engine.Prelude.{
  ℕ, zero, suc, ◌+◌, ◌-◌, ◌/◌, Bool, ◌&&◌, List, [], ◌∷◌, length, get_or, leb, ltb, map, replicate,
  if◌then◌else◌,
}

abbrev pub Run : Type 0 → Type 0
Run V = ℕ × V

module _ {V : Type 0} (same : V → V → Bool) where
  -- The loop of `collectRuns` from `index` on, the current run having the value `current`.
  unfoldable pub collect_from : ℕ → V → List V → List (Run V)
  collect_from index current [] = []
  collect_from index current (v ∷ vs) =
      let continued = collect_from (index + 1) current vs in
      let started = (index, v) ∷ collect_from (index + 1) v vs in
      if same v current then continued else started

  unfoldable pub collect_runs : V → List V → List (Run V)
  unfolding collect_from
  collect_runs v vs = (0, v) ∷ collect_from 1 v vs

  -- `runCount` of `scanValues`: the count so far, and the previous value.
  unfoldable pub count_from : ℕ → V → List V → ℕ
  count_from count previous [] = count
  count_from count previous (v ∷ vs) =
      let continued = count_from count previous vs in
      let started = count_from (count + 1) v vs in if same v previous then continued else started

  unfoldable pub run_count : V → List V → ℕ
  unfolding count_from
  run_count v vs = count_from 1 v vs

module _ {V : Type 0} where
  -- `target.fill(value, start, end)`, from position `i` on
  unfoldable pub fill_from : ℕ → List V → V → ℕ → ℕ → List V
  fill_from i [] v start end = []
  fill_from i (x ∷ xs) v start end =
      (if leb start i && ltb i end then v else x) ∷ fill_from (i + 1) xs v start end

  unfoldable pub fill : List V → V → ℕ → ℕ → List V
  unfolding fill_from
  fill = fill_from 0

  -- Each run ends where the next starts, the last at `length`.
  unfoldable pub expand_runs : List V → List (Run V) → ℕ → List V
  unfolding fill
  expand_runs target [] n = target
  expand_runs target ((start, v) ∷ []) n = fill target v start n
  expand_runs target ((start, v) ∷ (next, w) ∷ runs) n =
      expand_runs (fill target v start next) ((next, w) ∷ runs) n

  -- A typed array starts with zeros, `blank`.
  unfoldable pub decode : V → List (Run V) → ℕ → List V
  unfolding expand_runs
  decode blank runs n = expand_runs (replicate n blank) runs n

abbrev pub starts_of : {V : Type 0} → List (Run V) → List ℕ
starts_of [] = []
starts_of ((start, v) ∷ runs) = start ∷ starts_of runs

abbrev pub values_of : {V : Type 0} → List (Run V) → List V
values_of [] = []
values_of ((start, v) ∷ runs) = v ∷ values_of runs

-- The binary search of `runIndexOf`. Each round shrinks `high - low`, so `high` rounds suffice.
unfoldable pub search_loop : ℕ → List ℕ → ℕ → ℕ → ℕ → ℕ
search_loop zero starts index low high = low
search_loop (suc fuel) starts index low high =
    let mid = (low + high + 1) / 2 in
    let up = search_loop fuel starts index mid high in
    let down = search_loop fuel starts index low (mid - 1) in
    if ltb low high then (if leb (get_or starts mid 0) index then up else down) else low

unfoldable pub run_index_of : List ℕ → ℕ → ℕ
unfolding search_loop
run_index_of starts index = search_loop (length starts) starts index 0 (length starts - 1)

unfoldable pub value_at : {V : Type 0} → V → List (Run V) → ℕ → V
unfolding run_index_of
value_at blank runs index = get_or (values_of runs) (run_index_of (starts_of runs) index) blank
