-- ===== src/Encoding/RunLength/Decode.antt =====
-- `decode` of src/storage/encoding/run-length.ts on the runs of a column.
use query_engine.Prelude.{
  ℕ, zero, suc, ◌+◌, ◌<◌, ◌≡◌, refl, ap, sym, ◌∙◌, ◌↔◌, Bool, true, ◌&&◌, some, List, [], ◌∷◌,
  length, get_elem?, length-replicate, list_ext, replicate, leb, ltb, le→leb, if◌then◌else◌, arith,
}
use query_engine.Encoding.RunLength.{
  Run, collect_from, collect_runs, fill_from, fill, expand_runs, decode,
}
use query_engine.Encoding.RunLength.Lookup.{
  run_value, Increasing, Below, collect_from-Increasing, collect_from-Below, Below-eq,
  run_value-collect_from, run_value-before,
}

module _ {V : Type 0} where
  length-fill_from :
      (i : ℕ) (xs : List V) (v : V) (s e : ℕ) → length (fill_from i xs v s e) ≡ length xs
  unfolding fill_from
  length-fill_from i [] v s e = refl
  length-fill_from i (x ∷ xs) v s e = ap suc (length-fill_from (i + 1) xs v s e)

  get_elem?-fill_from :
      (i : ℕ) (xs : List V) (v : V) (s e j : ℕ)
      → j < length xs
      → get_elem? (fill_from i xs v s e) j
        ≡ (if leb s (i + j) && ltb (i + j) e then some v else get_elem? xs j)
  unfolding fill_from
  get_elem?-fill_from i [] v s e j h = elim h [ ]
  get_elem?-fill_from i (x ∷ xs) v s e zero h = ground arith
  get_elem?-fill_from i (x ∷ xs) v s e (suc j) h =
      ground (arith, get_elem?-fill_from (i + 1) xs v s e j (omega arith))

  length-expand_runs :
      (target : List V) (runs : List (Run V)) (n : ℕ)
      → length (expand_runs target runs n) ≡ length target
  unfolding expand_runs
  length-expand_runs target [] n = refl
  length-expand_runs target ((s, v) ∷ []) n = length-fill_from 0 target v s n
  length-expand_runs target ((s, v) ∷ (t, w) ∷ runs) n =
      length-expand_runs (fill target v s t) ((t, w) ∷ runs) n ∙ length-fill_from 0 target v s t

  -- From the first start on every position has the value of its run; those before are untouched.
  get_elem?-expand_runs :
      (target : List V) (s : ℕ) (v : V) (runs : List (Run V)) (n : ℕ)
      → Increasing (s + 1) runs
      → Below n runs
      → n ≡ length target
      → (i : ℕ) → i < n
      → get_elem? (expand_runs target ((s, v) ∷ runs) n) i
        ≡ (if leb s i then some (run_value v runs i) else get_elem? target i)
  unfolding expand_runs run_value
  get_elem?-expand_runs target s v [] n inc below len i h =
      ground (arith, get_elem?-fill_from 0 target v s n i (omega arith))
  get_elem?-expand_runs target s v ((t, w) ∷ runs) n inc below len i h = ground (
    arith,
    get_elem?-fill_from 0 target v s t i (omega arith),
    get_elem?-expand_runs (fill target v s t) t w runs n inc.1 below.1
        (len ∙ sym (length-fill_from 0 target v s t)) i h,
  )

module _ {V : Type 0} (same : V → V → Bool)
    (same_iff : (a b : V) → (same a b ≡ true) ↔ (a ≡ b)) where
  -- Every value of a column is at its index in what its runs decode to.
  pub run_value-collect_runs :
      (v : V) (vs : List V) (i : ℕ)
      → i < length (v ∷ vs)
      → get_elem? (v ∷ vs) i ≡ some (run_value v (collect_from same 1 v vs) i)
  unfolding run_value
  run_value-collect_runs v vs zero h = ap some (
      sym (
        run_value-before v (collect_from same 1 v vs) 1 0
          (collect_from-Increasing same same_iff 1 v vs) (omega arith)))
  run_value-collect_runs v vs (suc i) h =
      run_value-collect_from same same_iff 1 v vs i (omega arith)
      ∙ ap (λ j. some (run_value v (collect_from same 1 v vs) j)) (omega arith)

  -- Where `===` is equality on the values, decoding the runs collected from a column that is not
  -- empty gives the column, whatever a fresh array holds.
  pub decode-collect_runs :
      (blank v : V) (vs : List V) → decode blank (collect_runs same v vs) (length (v ∷ vs)) ≡ v ∷ vs
  unfolding decode collect_runs
  decode-collect_runs blank v vs =
      let n = length (v ∷ vs) in
      let runs = collect_from same 1 v vs in
      let target = replicate n blank in
      let size = length-expand_runs target ((0, v) ∷ runs) n ∙ length-replicate n blank in
      list_ext _ _ size λ i h.
        get_elem?-expand_runs target 0 v runs n (collect_from-Increasing same same_iff 1 v vs)
          (Below-eq {m = 1 + length vs} runs (omega arith)
            (collect_from-Below same same_iff 1 v vs))
          (sym (length-replicate n blank)) i (omega (arith, size))
        ∙ rw (le→leb 0 i (omega arith)) (sym (run_value-collect_runs v vs i (omega (arith, size))))
