-- ===== src/Storage/BTree/Keys.antt =====
-- `_compare` of src/storage/btree.ts, and the order that it is.
use query_engine.Prelude.{◌≡◌, sym, ap, ◌∙◌, true, false, if◌then◌else◌, arith}
use query_engine.Values.{Value, Js, is_null}
use query_engine.Values.Ops.{to_num, regular}
use query_engine.Pruning.Order.{Ordered, alike}
use query_engine.Storage.BTree.{KeyOrder, key_less, key_equal, key_greater, is_less, is_equal}

-- A null that is `undefined` is compared as `null` is.
unfoldable pub compare_keys : {F : Type 0} → Js F → Value F → Value F → KeyOrder
unfolding is_null to_num
compare_keys js a b =
    if js.strict_equal a b
    then key_equal
    else if is_null a
    then key_less
    else if is_null b
    then key_greater
    else if js.less (to_num js a) (to_num js b)
    then key_less
    else if js.less (to_num js b) (to_num js a)
    then key_greater
    else key_equal

abbrev pub flipped : KeyOrder → KeyOrder
flipped key_less = key_greater
flipped key_equal = key_equal
flipped key_greater = key_less

-- What the tree relies on: a total order up to the keys that compare as equal.
pub record IsOrder {K : Type 0} (order_of : K → K → KeyOrder) : Type 0 where
  pub same : (a : K) → order_of a a ≡ key_equal
  pub flips : (a b : K) → order_of b a ≡ flipped (order_of a b)
  pub less_trans :
      (a b c : K)
      → is_less (order_of a b) ≡ true
      → is_less (order_of b c) ≡ true
      → is_less (order_of a c) ≡ true
  pub equal_same : (a b c : K) → is_equal (order_of a b) ≡ true → order_of a c ≡ order_of b c

module _ {F : Type 0} {js : Js F} (o : Ordered js) {K : Type 0} (value : K → Value F)
    (kinds : (a b : K) → alike (to_num js (value a)) (to_num js (value b)) ≡ true)
    (numbers : (a : K) → regular js (to_num js (value a)) ≡ true) where
  not_null : (a : K) → is_null (value a) ≡ false
  unfolding to_num alike is_null
  not_null a = ground (arith, kinds a a)

  n : K → Value F
  n a = to_num js (value a)

  by_less : Value F → Value F → KeyOrder
  by_less x y = if js.less x y then key_less else if js.less y x then key_greater else key_equal

  self-by_less : (a : K) → by_less (n a) (n a) ≡ key_equal
  unfolding by_less n
  self-by_less a = ground (arith, o.less_irrefl (n a))

  equal-by_less :
      (a b : K) → js.strict_equal (value a) (value b) ≡ true → by_less (n a) (n b) ≡ key_equal
  unfolding by_less n
  equal-by_less a b e =
      let sides =
        o.same_less (n a) (n b) (n a) (kinds a b) (kinds a a)
          (o.same_to_num (value a) (value b) e) in
      ground (arith, sides.0, sides.1, o.less_irrefl (n a))

  compare_keys-by_less : (a b : K) → compare_keys js (value a) (value b) ≡ by_less (n a) (n b)
  unfolding compare_keys by_less n
  compare_keys-by_less a b = ground (arith, not_null a, not_null b, equal-by_less a b)

  by_less-flips : (a b : K) → by_less (n b) (n a) ≡ flipped (by_less (n a) (n b))
  unfolding by_less n
  by_less-flips a b =
      ground (arith, o.less_trans (n a) (n b) (n a) (kinds a b) (kinds b a), o.less_irrefl (n a))

  by_less_trans :
      (a b c : K)
      → is_less (by_less (n a) (n b)) ≡ true
      → is_less (by_less (n b) (n c)) ≡ true
      → is_less (by_less (n a) (n c)) ≡ true
  unfolding by_less n
  by_less_trans a b c h k = ground (arith, o.less_trans (n a) (n b) (n c) (kinds a b) (kinds b c))

  by_less-equal :
      (a b c : K)
      → is_equal (by_less (n a) (n b)) ≡ true
      → by_less (n a) (n c) ≡ by_less (n b) (n c)
  unfolding by_less n
  by_less-equal a b c h =
      let same =
        o.less_total (n a) (n b) (kinds a b) (numbers a) (numbers b) (ground arith)
          (ground arith) in
      let sides = o.same_less (n a) (n b) (n c) (kinds a b) (kinds a c) same in
      ground (arith, sides.0, sides.1)

  -- Keys of one kind, numbers and big integers, texts or Booleans, none of them NaN, are ordered
  -- by `_compare`.
  pub compare_keys-IsOrder : IsOrder (λ a b. compare_keys js (value a) (value b))
  compare_keys-IsOrder = record {
    same = λ a. compare_keys-by_less a a ∙ self-by_less a;
    flips = λ a b.
        compare_keys-by_less b a ∙ by_less-flips a b ∙ ap flipped (sym (compare_keys-by_less a b));
    less_trans = λ a b c h k.
        ap is_less (compare_keys-by_less a c)
        ∙ by_less_trans a b c (sym (ap is_less (compare_keys-by_less a b)) ∙ h)
            (sym (ap is_less (compare_keys-by_less b c)) ∙ k);
    equal_same = λ a b c h.
        compare_keys-by_less a c
        ∙ by_less-equal a b c (sym (ap is_equal (compare_keys-by_less a b)) ∙ h)
        ∙ sym (compare_keys-by_less b c);
  }
