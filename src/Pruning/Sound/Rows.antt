-- ===== src/Pruning/Sound/Rows.antt =====
-- `buildChunkZoneMap` of src/storage/zone-map.ts against the rows of the chunk.
use query_engine.Prelude.{
  ℕ, zero, suc, ◌<◌, ◌≡◌, refl, subst, Bool, true, false, Option, none, some, List, [], ◌∷◌, map,
  arith, All, get_elem?, ◌||◌, Bool-cases, inl, inr,
}
use mathlib.Core.Option.{some-injective}
use query_engine.Values.{Value, Js, boolean, is_null, is_true}
use query_engine.Values.Ops.{to_num}
use query_engine.Exprs.{Row, ColumnRef, BoundExpr}
use query_engine.Exprs.Eval.{eval}
use query_engine.Pruning.{
  ValueRange, ColumnZoneMap, ChunkZoneMap, Chunk, extend, summarize_value, summarize_from,
  summarize_column, build_chunk_zone_map,
}
use query_engine.Pruning.Compile.{ColumnResolver, compile_chunk_pruner}
use query_engine.Pruning.Order.{Ordered}
use query_engine.Pruning.Order.Ranges.{InRange}
use query_engine.Pruning.Sound.Column.{InZone, RowInZone}
use query_engine.Pruning.Sound.Comparison.{NoNan}
use query_engine.Pruning.Sound.Chunk.{PlainBetween, compile_chunk_pruner_sound}
use query_engine.Pruning.Sound.Summary.{
  Kind, of_kind, Converts, IsRange, Holds, widen-IsRange, widen-Holds_new, widen-Holds,
  Holds-InRange, is_before_irrefl,
}

-- Every value of a column is null or of one kind, and no number is NaN.
abbrev pub OfKind : {F : Type 0} → Js F → Kind → List (Value F) → Type 0
OfKind js k = All (λ v. (is_null v || of_kind js k v) ≡ true)

module _ {F : Type 0} {js : Js F} (o : Ordered js) (conv : Converts js) (k : Kind) where
  abbrev GoodRange : Option (ValueRange F) → Type 0
  GoodRange none = Unit
  GoodRange (some r) = IsRange o conv k r

  abbrev HeldBy : Option (ValueRange F) → Value F → Type 0
  HeldBy none v = ⊥
  HeldBy (some r) v = Holds o conv k r v

  held_range :
      (range : Option (ValueRange F)) (v : Value F)
      → GoodRange range
      → HeldBy range v
      → (r : ValueRange F) × (range ≡ some r)
        × InRange js (to_num js r.min) (to_num js r.max) (to_num js v)
  held_range none v good held = absurd held
  held_range (some r) v good held = (r, refl, Holds-InRange o conv k r v good held)

  -- The zone map has seen `v`.
  pub record Seen (z : ColumnZoneMap F) (v : Value F) : Type 0 where
    if_null : is_null v ≡ true → z.has_nulls ≡ true
    if_value : is_null v ≡ false → HeldBy z.range v

  extend-IsRange :
      (range : Option (ValueRange F)) (v : Value F)
      → of_kind js k v ≡ true
      → GoodRange range
      → IsRange o conv k (extend js range v)
  unfolding extend
  extend-IsRange none v h g = record {
    min_kind = h;
    max_kind = h;
    in_order = is_before_irrefl o conv k v h;
  }
  extend-IsRange (some r) v h g = widen-IsRange o conv k r v h g

  extend-Holds_new :
      (range : Option (ValueRange F)) (v : Value F)
      → of_kind js k v ≡ true
      → GoodRange range
      → Holds o conv k (extend js range v) v
  unfolding extend
  extend-Holds_new none v h g =
      let i = is_before_irrefl o conv k v h in record { kind = h; low = i; high = i }
  extend-Holds_new (some r) v h g = widen-Holds_new o conv k r v h g

  extend-Holds :
      (range : Option (ValueRange F)) (v w : Value F)
      → of_kind js k v ≡ true
      → GoodRange range
      → HeldBy range w
      → Holds o conv k (extend js range v) w
  unfolding extend
  extend-Holds none v w h g held = absurd held
  extend-Holds (some r) v w h g held = widen-Holds o conv k r v w h g held

  module _ (z : ColumnZoneMap F) (v : Value F) (known : (is_null v || of_kind js k v) ≡ true)
      (good : GoodRange z.range) where
    summarize_value-GoodRange : GoodRange (summarize_value js z v).range
    unfolding summarize_value
    summarize_value-GoodRange = elim (Bool-cases (is_null v)) [
      | inl n ↦ rw n good
      | inr n ↦ rw n (extend-IsRange z.range v (rw n at known) good)
    ]

    summarize_value-Seen_new : Seen (summarize_value js z v) v
    unfolding summarize_value
    summarize_value-Seen_new = elim (Bool-cases (is_null v)) [
      | inl n ↦ rw n (record { if_null = λ h. refl; if_value = λ h. cc })
      | inr n ↦ rw n (record {
        if_null = λ h. cc;
        if_value = λ h. extend-Holds_new z.range v (rw n at known) good;
      })
    ]

    summarize_value-Seen : (w : Value F) → Seen z w → Seen (summarize_value js z v) w
    unfolding summarize_value
    summarize_value-Seen w seen = elim (Bool-cases (is_null v)) [
      | inl n ↦ rw n (record { if_null = λ h. refl; if_value = seen.if_value })
      | inr n ↦ rw n (record {
        if_null = seen.if_null;
        if_value = λ h. extend-Holds z.range v w (rw n at known) good (seen.if_value h);
      })
    ]

  summarize_from-GoodRange :
      (z : ColumnZoneMap F) (vs : List (Value F))
      → OfKind js k vs
      → GoodRange z.range
      → GoodRange (summarize_from js z vs).range
  unfolding summarize_from
  summarize_from-GoodRange z [] known good = good
  summarize_from-GoodRange z (v ∷ vs) known good =
      summarize_from-GoodRange (summarize_value js z v) vs known.1
        (summarize_value-GoodRange z v known.0 good)

  summarize_from-Seen :
      (z : ColumnZoneMap F) (vs : List (Value F))
      → OfKind js k vs
      → GoodRange z.range
      → ((w : Value F) → Seen z w → Seen (summarize_from js z vs) w)
        × ((j : ℕ) (w : Value F) → get_elem? vs j ≡ some w → Seen (summarize_from js z vs) w)
  unfolding summarize_from
  summarize_from-Seen z [] known good = (λ w s. s, λ j w e. cc)
  summarize_from-Seen z (v ∷ vs) known good =
      let (keeps, finds) =
        summarize_from-Seen (summarize_value js z v) vs known.1
          (summarize_value-GoodRange z v known.0 good) in
      (
        λ w s. keeps w (summarize_value-Seen z v known.0 good w s),
        elim [
          | zero ↦ λ w e.
              subst (Seen (summarize_from js (summarize_value js z v) vs)) (some-injective _ _ e)
                (keeps v (summarize_value-Seen_new z v known.0 good))
          | suc j ↦ λ w e. finds j w e
        ],
      )

  Seen-InZone : (z : ColumnZoneMap F) (v : Value F) → GoodRange z.range → Seen z v → InZone js z v
  Seen-InZone z v good seen = record {
    nulls = seen.if_null;
    values = λ h. held_range z.range v good (seen.if_value h);
  }

  summarize_column-InZone :
      (col : List (Value F)) (j : ℕ) (v : Value F)
      → OfKind js k col
      → get_elem? col j ≡ some v
      → InZone js (summarize_column js col) v
  unfolding summarize_column
  summarize_column-InZone col j v known e =
      let empty : ColumnZoneMap F = record { range = none; has_nulls = false } in
      Seen-InZone _ v (summarize_from-GoodRange empty col known tt)
        ((summarize_from-Seen empty col known tt).1 j v e)

get_elem?-map :
    {A B : Type 0} (f : A → B) (xs : List A) (i : ℕ) {b : B}
    → get_elem? (map f xs) i ≡ some b
    → (a : A) × (get_elem? xs i ≡ some a) × (f a ≡ b)
get_elem?-map f [] i e = cc
get_elem?-map f (x ∷ xs) zero e = (x, refl, some-injective _ _ e)
get_elem?-map f (x ∷ xs) (suc i) e = get_elem?-map f xs i e

-- `row` is the row at position `j` of the chunk.
abbrev pub RowOf : {F : Type 0} → ColumnResolver → Chunk F → ℕ → Row F → Type 0
RowOf {F} resolve chunk j row =
    (ref : ColumnRef) (i : ℕ) (col : List (Value F))
    → resolve ref ≡ some i
    → get_elem? chunk.columns i ≡ some col
    → get_elem? col j ≡ some (row ref)

-- Every column has values of one kind, none of them NaN.
abbrev pub Typed : {F : Type 0} → Js F → (ℕ → Kind) → Chunk F → Type 0
Typed {F} js kinds chunk =
    (i : ℕ) (col : List (Value F)) → get_elem? chunk.columns i ≡ some col → OfKind js (kinds i) col

module _ {F : Type 0} {js : Js F} (o : Ordered js) (conv : Converts js) where
  build_chunk_zone_map-RowInZone :
      (resolve : ColumnResolver) (chunk : Chunk F) (kinds : ℕ → Kind) (j : ℕ) (row : Row F)
      → Typed js kinds chunk
      → RowOf resolve chunk j row
      → RowInZone js resolve (build_chunk_zone_map js chunk) row
  unfolding build_chunk_zone_map
  build_chunk_zone_map-RowInZone resolve chunk kinds j row typed at ref i c resolved found =
      let (col, here, made) = get_elem?-map (summarize_column js) chunk.columns i found in
      subst (λ z. InZone js z (row ref)) made
        (summarize_column-InZone o conv (kinds i) col j (row ref) (typed i col here)
          (at ref i col resolved here))

  -- Where JavaScript's comparisons and conversions keep their laws and a boolean is truthy as
  -- itself: if every column of a chunk holds values of one kind, none of them NaN, a row is the
  -- chunk's row at one position, no value tested by a BETWEEN is a bigint, no literal is NaN, the
  -- predicate compiles to a pruner, and the pruner skips the chunk's zone map, then the predicate
  -- is not true on the row.
  pub pruned_chunk-has_no_match :
      (truthy : (b : Bool) → js.truthy (boolean b) ≡ b) (resolve : ColumnResolver) (chunk : Chunk F)
      (kinds : ℕ → Kind) (j : ℕ) (row : Row F) (e : BoundExpr F) (can_skip : ChunkZoneMap F → Bool)
      → Typed js kinds chunk
      → RowOf resolve chunk j row
      → j < chunk.size
      → PlainBetween js row e
      → NoNan js e
      → compile_chunk_pruner js resolve e ≡ some can_skip
      → can_skip (build_chunk_zone_map js chunk) ≡ true
      → is_true (eval js row e) ≡ false
  unfolding build_chunk_zone_map
  pruned_chunk-has_no_match truthy resolve chunk kinds j row e can_skip typed at inside plain
        numbers compiled skipped =
      compile_chunk_pruner_sound o truthy resolve (build_chunk_zone_map js chunk) row
        (build_chunk_zone_map-RowInZone resolve chunk kinds j row typed at) e can_skip plain numbers
        compiled (ground arith) skipped
