-- ===== src/Execution/SetOp/Bags.antt =====
-- INTERSECT and EXCEPT of src/execution/operators/set-op.ts on all chunks of both sides.
use mathlib.Core.Option.{some-injective}
use query_engine.Prelude.{
  ℕ, zero, suc, ◌+◌, ◌-◌, ◌≤◌, ◌≡◌, refl, sym, subst, ap, ap₂, ◌∙◌, String, Bool, true, false, not,
  ◌&&◌, Option, none, some, List, [], ◌∷◌, ltb, ◌==◌, if◌then◌else◌, min, length, Bool-cases, inl,
  inr, arith,
}
use query_engine.Execution.Filter.{
  Column, DataChunk, rows_of, is_selected, empty_chunk, apply_selection_vector,
}
use query_engine.Execution.Filter.Conjunction.{length-count_up}
use query_engine.Execution.SetOp.{
  SetOpType, union, intersect, except, SetOpPolicy, set_op_policy, SetOperator, fresh_operator,
  after_round, filter_loop, keys_of, active_keys, consume_right, filter_left,
}
use query_engine.Execution.SetOp.Counts.{
  count, count_right-count, next_right, next_emitted, kept_of, right_of, emitted_of,
  filter_loop-count, kept-intersect_all, kept-intersect_distinct, kept-except_all,
  kept-except_distinct,
}

-- The multiplicities of SQL
abbrev pub multiplicity : SetOpType → Bool → ℕ → ℕ → ℕ
multiplicity union all l r = 0
multiplicity intersect true l r = min l r
multiplicity intersect false l r = if ltb 0 l && ltb 0 r then 1 else 0
multiplicity except true l r = l - r
multiplicity except false l r = if ltb 0 l && (r == 0) then 1 else 0

kept_of-plus :
    (p : SetOpPolicy) (a b r e : ℕ)
    → kept_of p (a + b) r e ≡ kept_of p a r e + kept_of p b (right_of p a r) (emitted_of p a r e)
kept_of-plus p zero b r e =
    let next : 0 + b ≡ b = omega arith in ap (λ n. kept_of p n r e) next ∙ omega arith
kept_of-plus p (suc a) b r e =
    let next : suc a + b ≡ suc (a + b) = omega arith in
    ap (λ n. kept_of p n r e) next
    ∙ omega (arith, kept_of-plus p a b (next_right p r) (next_emitted p r e))

kept_of-multiplicity :
    (op : SetOpType) (all : Bool) (p : SetOpPolicy) (l r : ℕ)
    → set_op_policy op all ≡ some p
    → kept_of p l r 0 ≡ multiplicity op all l r
unfolding set_op_policy
kept_of-multiplicity union all p l r h = cc h
kept_of-multiplicity intersect true p l r h =
    subst (λ q. kept_of q l r 0 ≡ min l r) (some-injective _ _ h) (kept-intersect_all l r 0)
kept_of-multiplicity intersect false p l r h =
    subst (λ q. kept_of q l r 0 ≡ multiplicity intersect false l r) (some-injective _ _ h)
      (ground (arith, kept-intersect_distinct l r 0))
kept_of-multiplicity except true p l r h =
    subst (λ q. kept_of q l r 0 ≡ l - r) (some-injective _ _ h) (kept-except_all l r 0)
kept_of-multiplicity except false p l r h =
    subst (λ q. kept_of q l r 0 ≡ multiplicity except false l r) (some-injective _ _ h)
      (ground (arith, kept-except_distinct l r 0))

nil-of_length : (rows : List ℕ) → (length rows == 0) ≡ true → rows ≡ []
nil-of_length [] h = refl
nil-of_length (row ∷ rows) h = absurd (ground arith)

same_length :
    (m n : ℕ) (o : Option (List ℕ))
    → ((m == n) && not (is_selected o)) ≡ true
    → m ≡ length (rows_of n o)
same_length m n none h = ground (arith, length-count_up 0 n)
same_length m n (some sv) h = ground arith

module _ {F : Type 0} (row_key : List (Column F) → ℕ → String) where
  filter_loop-length :
      (columns : List (Column F)) (rows : List ℕ) (s : SetOperator)
      → length ((filter_loop row_key columns rows s).0) ≤ length rows
  unfolding filter_loop
  filter_loop-length columns [] s = omega arith
  filter_loop-length columns (row ∷ rows) s =
      ground (arith, filter_loop-length columns rows (after_round s (row_key columns row)))

  filter_loop-all :
      (columns : List (Column F)) (rows : List ℕ) (s : SetOperator)
      → length ((filter_loop row_key columns rows s).0) ≡ length rows
      → (filter_loop row_key columns rows s).0 ≡ rows
  unfolding filter_loop
  filter_loop-all columns [] s h = refl
  filter_loop-all columns (row ∷ rows) s h =
      let t = after_round s (row_key columns row) in
      ground (arith, filter_loop-length columns rows t, filter_loop-all columns rows t)

  -- The keys of the chunk that `filter_left` gives are those of the rows that the loop selects.
  rows-apply :
      (chunk : DataChunk F) (kept : List ℕ)
      → (length kept ≡ length (rows_of chunk.size chunk.selection_vector)
          → kept ≡ rows_of chunk.size chunk.selection_vector)
      → active_keys row_key (apply_selection_vector chunk kept) ≡ keys_of row_key chunk.columns kept
  unfolding apply_selection_vector empty_chunk
  rows-apply chunk kept all_kept = elim (Bool-cases (length kept == 0)) [
    | inl e ↦ rw (e, nil-of_length kept e) refl
    | inr e ↦
        elim (Bool-cases
          ((length kept == chunk.size) && not (is_selected chunk.selection_vector))) [
            | inl whole ↦
                rw (e, whole)
                  (ap (keys_of row_key chunk.columns) (
                    sym (
                      all_kept
                        (same_length (length kept) chunk.size chunk.selection_vector whole))))
            | inr part ↦ rw (e, part) refl
          ]
  ]

  filter_left-count :
      (chunk : DataChunk F) (s : SetOperator) (k : String)
      → let c = count k (active_keys row_key chunk) in
        let found = filter_left row_key chunk s in
        (count k (active_keys row_key (found.0))
          ≡ kept_of s.policy c (s.right_counts k) (s.emitted_counts k))
        × ((found.1).right_counts k ≡ right_of s.policy c (s.right_counts k))
        × ((found.1).emitted_counts k
            ≡ emitted_of s.policy c (s.right_counts k) (s.emitted_counts k))
        × ((found.1).policy ≡ s.policy)
  unfolding filter_left
  filter_left-count chunk s k =
      let rows = rows_of chunk.size chunk.selection_vector in
      let (kept, right, emitted, same) = filter_loop-count row_key chunk.columns rows s k in
      (
        ap (count k) (
              rows-apply chunk ((filter_loop row_key chunk.columns rows s).0)
                (filter_loop-all chunk.columns rows s))
            ∙ kept,
        right,
        emitted,
        same,
      )

  abbrev pub count_chunks : String → List (DataChunk F) → ℕ
  count_chunks k [] = 0
  count_chunks k (chunk ∷ chunks) = count k (active_keys row_key chunk) + count_chunks k chunks

  abbrev pub consume_all : List (DataChunk F) → SetOperator → SetOperator
  consume_all [] s = s
  consume_all (chunk ∷ chunks) s = consume_all chunks (consume_right row_key chunk s)

  abbrev pub filter_all : List (DataChunk F) → SetOperator → List (DataChunk F)
  filter_all [] s = []
  filter_all (chunk ∷ chunks) s =
      let found = filter_left row_key chunk s in found.0 ∷ filter_all chunks (found.1)

  filter_all-count :
      (chunks : List (DataChunk F)) (s : SetOperator) (k : String)
      → count_chunks k (filter_all chunks s)
        ≡ kept_of s.policy (count_chunks k chunks) (s.right_counts k) (s.emitted_counts k)
  filter_all-count [] s k = refl
  filter_all-count (chunk ∷ chunks) s k =
      let c = count k (active_keys row_key chunk) in
      let found = filter_left row_key chunk s in
      let (kept, right, emitted, same) = filter_left-count chunk s k in
      let rest = filter_all-count chunks (found.1) k in
      let n = count_chunks k chunks in
      let moved : kept_of ((found.1).policy) n ((found.1).right_counts k)
            ((found.1).emitted_counts k)
          ≡ kept_of s.policy n (right_of s.policy c (s.right_counts k))
              (emitted_of s.policy c (s.right_counts k) (s.emitted_counts k)) =
        ap (λ p. kept_of p n ((found.1).right_counts k) ((found.1).emitted_counts k)) same
        ∙ ap₂ (kept_of s.policy n) right emitted in
      ap₂ (λ a b. a + b) kept (rest ∙ moved)
      ∙ sym (kept_of-plus s.policy c n (s.right_counts k) (s.emitted_counts k))

  consume_all-count :
      (chunks : List (DataChunk F)) (s : SetOperator) (k : String)
      → let t = consume_all chunks s in
        (t.right_counts k ≡ s.right_counts k + count_chunks k chunks)
        × (t.emitted_counts k ≡ s.emitted_counts k)
        × (t.policy ≡ s.policy)
  unfolding consume_right
  consume_all-count [] s k = (omega arith, refl, refl)
  consume_all-count (chunk ∷ chunks) s k =
      let (right, emitted, same) = consume_all-count chunks (consume_right row_key chunk s) k in
      (
        omega (arith, right, count_right-count (active_keys row_key chunk) s.right_counts k),
        emitted,
        same,
      )

  -- Whatever key the rows are told apart by and however both sides are cut into chunks, INTERSECT and
  -- EXCEPT, with ALL and without it, keep as many rows of each key as SQL asks for: the least of the
  -- two counts, their difference, and without ALL one row or none.
  pub filter_all-multiplicity :
      (op : SetOpType) (all : Bool) (policy : SetOpPolicy) (lefts rights : List (DataChunk F))
      (k : String)
      → set_op_policy op all ≡ some policy
      → count_chunks k (filter_all lefts (consume_all rights (fresh_operator policy)))
        ≡ multiplicity op all (count_chunks k lefts) (count_chunks k rights)
  filter_all-multiplicity op all policy lefts rights k h =
      let t = consume_all rights (fresh_operator policy) in
      let (right, emitted, same) = consume_all-count rights (fresh_operator policy) k in
      let l = count_chunks k lefts in
      let r : t.right_counts k ≡ count_chunks k rights = right ∙ omega arith in
      filter_all-count lefts t k
      ∙ ap (λ p. kept_of p l (t.right_counts k) (t.emitted_counts k)) same
      ∙ ap₂ (kept_of policy l) r emitted
      ∙ kept_of-multiplicity op all policy l (count_chunks k rights) h
