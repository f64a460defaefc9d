-- ===== src/Pruning.antt =====
-- src/storage/zone-map.ts: the least and the greatest value of each column of a chunk, and whether
-- the column holds a null.
pub mod Truth
pub mod Rules
pub mod Compile
pub mod Order
pub mod Sound
use query_engine.Prelude.{
  ℕ, Bool, true, false, ◌||◌, Option, none, some, List, [], ◌∷◌, map, if◌then◌else◌,
}
use query_engine.Prelude.Int.{ltb_ℤ}
use query_engine.Values.{Value, Js, null, number, bigint, text, boolean, is_null}

pub record ValueRange (F : Type 0) : Type 0 where
  pub min : Value F
  pub max : Value F

pub record ColumnZoneMap (F : Type 0) : Type 0 where
  pub range : Option (ValueRange F)
  pub has_nulls : Bool

pub record ChunkZoneMap (F : Type 0) : Type 0 where
  pub row_count : ℕ
  pub columns : List (ColumnZoneMap F)

-- A chunk by its columns, each the list of the values that the selection leaves.
pub record Chunk (F : Type 0) : Type 0 where
  pub size : ℕ
  pub columns : List (List (Value F))

module _ {F : Type 0} (js : Js F) where
  -- both bigints; one of them a string; else by `Number`
  unfoldable pub is_before : Value F → Value F → Bool
  is_before (bigint a) (bigint b) = ltb_ℤ a b
  is_before (text a) r = js.less (text a) (text (js.to_text r))
  is_before (bigint a) (text b) = js.less (text (js.to_text (bigint a))) (text b)
  is_before l (text b) = js.less (text (js.to_text l)) (text b)
  is_before l r = js.less (js.as_number l) (js.as_number r)

  unfoldable pub widen : ValueRange F → Value F → ValueRange F
  unfolding is_before
  widen r v =
      if is_before v r.min
      then record r { min = v }
      else if is_before r.max v
      then record r { max = v }
      else r

  unfoldable pub extend : Option (ValueRange F) → Value F → ValueRange F
  unfolding widen
  extend none v = record { min = v; max = v }
  extend (some r) v = widen r v

  unfoldable pub summarize_value : ColumnZoneMap F → Value F → ColumnZoneMap F
  unfolding is_null extend
  summarize_value z v =
      if is_null v
      then record z { has_nulls = true }
      else record z { range = some (extend z.range v) }

  unfoldable pub summarize_from : ColumnZoneMap F → List (Value F) → ColumnZoneMap F
  summarize_from z [] = z
  summarize_from z (v ∷ vs) = summarize_from (summarize_value z v) vs

  unfoldable pub summarize_column : List (Value F) → ColumnZoneMap F
  unfolding summarize_from summarize_value
  summarize_column = summarize_from (record { range = none; has_nulls = false })

  unfoldable pub build_chunk_zone_map : Chunk F → ChunkZoneMap F
  unfolding summarize_column
  build_chunk_zone_map c = record { row_count = c.size; columns = map summarize_column c.columns }
