-- ===== src/Pruning/Sound/Summary.antt =====
-- `summarizeColumn` of src/storage/zone-map.ts against the values of the column.
use query_engine.Prelude.{String, ◌≡◌, refl, sym, ◌∙◌, Bool, true, false, not, ◌&&◌, arith}
use query_engine.Prelude.Int.{ℤ, ltb_ℤ}
use query_engine.Values.{Value, Js, number, bigint, text, boolean}
use query_engine.Values.Ops.{to_num, regular}
use query_engine.Pruning.{ValueRange, is_before, widen}
use query_engine.Pruning.Rules.{
  compare_comparable, is_nan, is_above, is_below, at_most_0, at_least_0,
}
use query_engine.Pruning.Order.{Ordered, alike, compare-Reads}
use query_engine.Pruning.Order.Ranges.{InRange}

-- The values of a column are of one kind, or null.
pub data Kind : Type 0 where
  numbers bigints texts booleans : Kind

-- A number that is NaN is of no kind.
unfoldable pub of_kind : {F : Type 0} → Js F → Kind → Value F → Bool
of_kind js numbers (number a) = regular js (number a)
of_kind js bigints (bigint _) = true
of_kind js texts (text _) = true
of_kind js booleans (boolean _) = true
of_kind js _ _ = false

-- JavaScript's conversions, as far as the order reads them.
pub record Converts {F : Type 0} (js : Js F) : Type 0 where
  pub as_number_number : (a : F) → js.as_number (number a) ≡ number a
  pub to_text_text : (s : String) → js.to_text (text s) ≡ s
  pub as_number_boolean :
      (a b : Bool) → js.less (js.as_number (boolean a)) (js.as_number (boolean b)) ≡ (not a && b)
  -- `Number` of a bigint keeps the order, and may map two bigints to one number.
  pub to_number_mono :
      (a b : ℤ)
      → ltb_ℤ a b ≡ false
      → js.less (number (js.to_number a)) (number (js.to_number b)) ≡ false
  pub to_number_regular : (a : ℤ) → regular js (number (js.to_number a)) ≡ true

module _ {F : Type 0} {js : Js F} (o : Ordered js) (conv : Converts js) where
  pub is_before_irrefl : (k : Kind) (a : Value F) → of_kind js k a ≡ true → is_before js a a ≡ false
  unfolding of_kind is_before
  is_before_irrefl numbers (number a) h = o.less_irrefl _
  is_before_irrefl bigints (bigint a) h = ground arith
  is_before_irrefl texts (text a) h = rw (is_before, conv.to_text_text a) (o.less_irrefl _)
  is_before_irrefl booleans (boolean a) h = o.less_irrefl _
  is_before_irrefl _ _ h = cc

  is_before_trans :
      (k : Kind) (a b c : Value F)
      → of_kind js k a ≡ true
      → of_kind js k b ≡ true
      → of_kind js k c ≡ true
      → is_before js a b ≡ true
      → is_before js b c ≡ true
      → is_before js a c ≡ true
  unfolding of_kind is_before alike
  is_before_trans numbers (number a) (number b) (number c) p q r h i =
      rw (is_before, conv.as_number_number a, conv.as_number_number c)
        (o.less_trans (number a) (number b) (number c) refl refl
          (rw (is_before, conv.as_number_number a, conv.as_number_number b) at h)
          (rw (is_before, conv.as_number_number b, conv.as_number_number c) at i))
  is_before_trans bigints (bigint a) (bigint b) (bigint c) p q r h i = ground arith
  is_before_trans texts (text a) (text b) (text c) p q r h i =
      o.less_trans _ _ _ refl refl (rw (is_before, conv.to_text_text b) at h) i
  is_before_trans booleans (boolean a) (boolean b) (boolean c) p q r h i =
      ground
        (arith, conv.as_number_boolean a b, conv.as_number_boolean b c, conv.as_number_boolean a c)
  is_before_trans _ _ _ _ p q r h i = cc

  -- What is not before stays not below once converted.
  is_before-less :
      (k : Kind) (a b : Value F)
      → of_kind js k a ≡ true
      → of_kind js k b ≡ true
      → is_before js a b ≡ false
      → js.less (to_num js a) (to_num js b) ≡ false
  unfolding of_kind is_before to_num
  is_before-less numbers (number a) (number b) p q h =
      rw (is_before, conv.as_number_number a, conv.as_number_number b) at h
  is_before-less bigints (bigint a) (bigint b) p q h = conv.to_number_mono a b h
  is_before-less texts (text a) (text b) p q h = rw (is_before, conv.to_text_text b) at h
  is_before-less booleans (boolean a) (boolean b) p q h =
      o.less_boolean a b ∙ (sym (conv.as_number_boolean a b) ∙ h)
  is_before-less _ _ _ p q h = cc

  kind-alike :
      (k : Kind) (a b : Value F)
      → of_kind js k a ≡ true
      → of_kind js k b ≡ true
      → alike (to_num js a) (to_num js b) ≡ true
  unfolding of_kind to_num alike
  kind-alike k a b p q = ground arith

  kind-regular : (k : Kind) (a : Value F) → of_kind js k a ≡ true → regular js (to_num js a) ≡ true
  unfolding of_kind to_num regular
  kind-regular numbers (number a) p = p
  kind-regular bigints (bigint a) p = conv.to_number_regular a
  kind-regular texts (text a) p = refl
  kind-regular booleans (boolean a) p = refl
  kind-regular _ _ p = cc

module _ {F : Type 0} {js : Js F} (o : Ordered js) where
  alike-not_nan : (a b : Value F) → alike a b ≡ true → is_nan (compare_comparable js a b) ≡ false
  unfolding alike compare_comparable is_nan
  alike-not_nan a b h = ground arith

  at_most_of_less :
      (a b : Value F)
      → alike a b ≡ true
      → js.less b a ≡ false
      → at_most_0 (compare_comparable js a b) ≡ true
  unfolding at_most_0 is_above is_nan
  at_most_of_less a b h n =
      let r = compare-Reads o a b (alike-not_nan a b h) in
      ground (arith, r.after, alike-not_nan a b h)

  at_least_of_less :
      (a b : Value F)
      → alike a b ≡ true
      → js.less a b ≡ false
      → at_least_0 (compare_comparable js a b) ≡ true
  unfolding at_least_0 is_below is_nan
  at_least_of_less a b h n =
      let r = compare-Reads o a b (alike-not_nan a b h) in
      ground (arith, r.before, alike-not_nan a b h)

module _ {F : Type 0} {js : Js F} (o : Ordered js) (conv : Converts js) (k : Kind) where
  -- A range whose ends are of the kind and in order.
  pub record IsRange (r : ValueRange F) : Type 0 where
    pub min_kind : of_kind js k r.min ≡ true
    pub max_kind : of_kind js k r.max ≡ true
    pub in_order : is_before js r.max r.min ≡ false

  pub record Holds (r : ValueRange F) (v : Value F) : Type 0 where
    pub kind : of_kind js k v ≡ true
    pub low : is_before js v r.min ≡ false
    pub high : is_before js r.max v ≡ false

  pub widen-IsRange :
      (r : ValueRange F) (v : Value F) → of_kind js k v ≡ true → IsRange r → IsRange (widen js r v)
  unfolding widen
  widen-IsRange r v h i = record {
    min_kind = ground arith;
    max_kind = ground arith;
    in_order = ground (arith, is_before_trans o conv k r.max v r.min);
  }

  pub widen-Holds_new :
      (r : ValueRange F) (v : Value F) → of_kind js k v ≡ true → IsRange r → Holds (widen js r v) v
  unfolding widen
  widen-Holds_new r v h i = record {
    kind = h;
    low = ground (arith, is_before_irrefl o conv k v);
    high = ground (arith, is_before_irrefl o conv k v, is_before_trans o conv k r.max v r.min);
  }

  pub widen-Holds :
      (r : ValueRange F) (v w : Value F)
      → of_kind js k v ≡ true
      → IsRange r
      → Holds r w
      → Holds (widen js r v) w
  unfolding widen
  widen-Holds r v w h i held = record {
    kind = held.kind;
    low = ground (arith, is_before_trans o conv k w v r.min);
    high = ground (arith, is_before_trans o conv k r.max v w);
  }

  pub Holds-InRange :
      (r : ValueRange F) (v : Value F)
      → IsRange r
      → Holds r v
      → InRange js (to_num js r.min) (to_num js r.max) (to_num js v)
  Holds-InRange r v i held = record {
    above_low =
        at_most_of_less o _ _ (kind-alike o conv k r.min v i.min_kind held.kind)
          (is_before-less o conv k v r.min held.kind i.min_kind held.low);
    below_high =
        at_least_of_less o _ _ (kind-alike o conv k r.max v i.max_kind held.kind)
          (is_before-less o conv k r.max v i.max_kind held.kind held.high);
    regular_low = kind-regular o conv k r.min i.min_kind;
    regular_high = kind-regular o conv k r.max i.max_kind;
    regular_value = kind-regular o conv k v held.kind;
  }
