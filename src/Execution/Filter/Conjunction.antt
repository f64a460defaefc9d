-- ===== src/Execution/Filter/Conjunction.antt =====
-- The results of the parts of a filter, as the rows of the chunk that they keep.
use query_engine.Prelude.{
  ℕ, zero, suc, ◌+◌, ◌≤◌, ◌<◌, ◌≡◌, refl, sym, subst, ap, ap₂, ◌∙◌, Bool, true, not, ◌&&◌, Option,
  none, some, List, [], ◌∷◌, length, count_up, ◌==◌, ==_iff, if◌then◌else◌, arith, Bool-cases, inl,
  inr,
}
use query_engine.Execution.Filter.{
  DataChunk, keep, rows_of, empty_chunk, is_selected, apply_selection_vector, intersect_sorted,
  and_result, merge_selected, fallback_of, execute_fallback,
}
use query_engine.Execution.Filter.Merge.{intersect_sorted-keep, count_up-Ascending}

pub keep-ext :
    (p q : ℕ → Bool) (start n : ℕ)
    → ((i : ℕ) → i < start + n → p i ≡ q i)
    → keep p (count_up start n) ≡ keep q (count_up start n)
keep-ext p q start zero h = refl
keep-ext p q start (suc n) h =
    rw (h start (omega arith), keep-ext p q (start + 1) n (λ i l. h i (omega arith))) refl

pub keep-keep : (p q : ℕ → Bool) (is : List ℕ) → keep q (keep p is) ≡ keep (λ i. p i && q i) is
keep-keep p q [] = refl
keep-keep p q (i ∷ is) = ground (arith, keep-keep p q is)

length-keep-le : (p : ℕ → Bool) (is : List ℕ) → length (keep p is) ≤ length is
length-keep-le p [] = omega arith
length-keep-le p (i ∷ is) = ground (arith, length-keep-le p is)

keep-all : (p : ℕ → Bool) (is : List ℕ) → length (keep p is) ≡ length is → keep p is ≡ is
keep-all p [] h = refl
keep-all p (i ∷ is) h = ground (arith, keep-all p is, length-keep-le p is)

pub length-count_up : (start n : ℕ) → length (count_up start n) ≡ n
length-count_up start zero = refl
length-count_up start (suc n) = ap suc (length-count_up (start + 1) n)

keep-none : (p q : ℕ → Bool) (is : List ℕ) → length (keep p is) ≡ 0 → keep (λ i. p i && q i) is ≡ []
keep-none p q [] h = refl
keep-none p q (i ∷ is) h = ground (arith, keep-none p q is)

keep-none_right :
    (p q : ℕ → Bool) (is : List ℕ) → length (keep q is) ≡ 0 → keep (λ i. p i && q i) is ≡ []
keep-none_right p q [] h = refl
keep-none_right p q (i ∷ is) h = ground (arith, keep-none_right p q is)

nil-of-length : (is : List ℕ) → length is ≡ 0 → is ≡ []
nil-of-length [] h = refl
nil-of-length (i ∷ is) h = absurd (omega arith)

module _ {F : Type 0} where
  -- The chunk has the rows below `n` that pass the test.
  pub record Keeps (n : ℕ) (p : ℕ → Bool) (result : DataChunk F) : Type 0 where
    pub rows : rows_of result.size result.selection_vector ≡ keep p (count_up 0 n)
    pub counted : result.size ≡ length (keep p (count_up 0 n))

  abbrev pub KeepsIfAny : ℕ → (ℕ → Bool) → Option (DataChunk F) → Type 0
  KeepsIfAny n p none = Unit
  KeepsIfAny n p (some result) = Keeps n p result

  module _ (chunk : DataChunk F) (fresh : chunk.selection_vector ≡ none) where
    abbrev pub passing : (ℕ → Bool) → List ℕ
    passing p = keep p (count_up 0 chunk.size)

    empty_chunk-Keeps :
        (p : ℕ → Bool) → length (passing p) ≡ 0 → Keeps chunk.size p (empty_chunk chunk)
    unfolding empty_chunk
    empty_chunk-Keeps p h = record { rows = sym (nil-of-length (passing p) h); counted = sym h }

    -- The chunk itself is returned when all rows pass.
    chunk-Keeps : (p : ℕ → Bool) → length (passing p) ≡ chunk.size → Keeps chunk.size p chunk
    chunk-Keeps p h = record {
      rows =
          ap (rows_of chunk.size) fresh
          ∙ sym (keep-all p (count_up 0 chunk.size) (h ∙ sym (length-count_up 0 chunk.size)));
      counted = sym h;
    }

    pub apply_selection_vector-Keeps :
        (p : ℕ → Bool) → Keeps chunk.size p (apply_selection_vector chunk (passing p))
    unfolding apply_selection_vector
    apply_selection_vector-Keeps p = elim (Bool-cases (length (passing p) == 0)) [
      | inl e ↦ rw e (empty_chunk-Keeps p ((==_iff _ _).0 e))
      | inr e ↦ elim (Bool-cases (length (passing p) == chunk.size)) [
        | inl all ↦
            rw (e, all)
              (subst
                (λ s. Keeps chunk.size p (
                  if true && not (is_selected s) then chunk else record {
                    columns = chunk.columns;
                    size = length (passing p);
                    selection_vector = some (passing p);
                  }))
                (sym fresh) (chunk-Keeps p ((==_iff _ _).0 all)))
        | inr part ↦ rw (e, part) (record { rows = refl; counted = refl })
      ]
    ]

    fallback_of-Keeps : (p : ℕ → Bool) → Keeps chunk.size p (fallback_of chunk (passing p))
    unfolding fallback_of
    fallback_of-Keeps p = elim (Bool-cases (length (passing p) == 0)) [
      | inl e ↦ rw e (empty_chunk-Keeps p ((==_iff _ _).0 e))
      | inr e ↦ elim (Bool-cases (length (passing p) == chunk.size)) [
        | inl all ↦ rw (e, all) (chunk-Keeps p ((==_iff _ _).0 all))
        | inr part ↦ rw (e, part) (record { rows = refl; counted = refl })
      ]
    ]

    pub execute_fallback-Keeps : (p : ℕ → Bool) → Keeps chunk.size p (execute_fallback p chunk)
    unfolding execute_fallback
    execute_fallback-Keeps p =
        subst (λ s. Keeps chunk.size p (fallback_of chunk (keep p (rows_of chunk.size s))))
          (sym fresh) (fallback_of-Keeps p)

    pub and_result-Keeps :
        (p q : ℕ → Bool) (l r : DataChunk F)
        → Keeps chunk.size p l
        → Keeps chunk.size q r
        → KeepsIfAny chunk.size (λ i. p i && q i) (and_result chunk (some l) (some r))
    unfolding and_result
    and_result-Keeps p q l r left right = elim (Bool-cases (l.size == 0)) [
      | inl none_left ↦ rw none_left (
          empty_chunk-Keeps _
            (ap length (keep-none p q _ (sym left.counted ∙ (==_iff _ _).0 none_left))))
      | inr e ↦ elim (Bool-cases (r.size == 0)) [
        | inl none_right ↦
            rw (e, none_right)
              (empty_chunk-Keeps _
                (ap length (keep-none_right p q _ (sym right.counted ∙ (==_iff _ _).0 none_right))))
        | inr f ↦ rw (e, f) (merged l.selection_vector r.selection_vector left.rows right.rows)
      ]
    ]
      where
        merged :
            (a b : Option (List ℕ))
            → rows_of l.size a ≡ passing p
            → rows_of r.size b ≡ passing q
            → KeepsIfAny chunk.size
                (λ i. p i && q i)
                (merge_selected intersect_sorted chunk a b none none)
        merged none none g h = tt
        merged none (some b) g h = tt
        merged (some a) none g h = tt
        merged (some a) (some b) g h =
            subst (λ x. Keeps chunk.size (λ i. p i && q i) (apply_selection_vector chunk x))
              (sym (
                ap₂ intersect_sorted g h
                ∙ intersect_sorted-keep p q 0 (count_up 0 chunk.size)
                    (count_up-Ascending 0 chunk.size)))
              (apply_selection_vector-Keeps (λ i. p i && q i))
