-- ===== src/Storage/BTree/Cut.antt =====
-- The sorted keys of a node of src/storage/btree.ts under `splice`.
use query_engine.Prelude.{
  ℕ, zero, suc, ◌≡◌, refl, true, false, Option, none, some, List, [], ◌∷◌, ◌++◌, get_elem?, arith,
}
use query_engine.Storage.BTree.{KeyOrder, insert_at, take, drop}
use query_engine.Storage.BTree.Operations.{holds_key}
use query_engine.Storage.BTree.Keys.{IsOrder}
use query_engine.Storage.BTree.Entries.{
  less, over, beyond, under, inside, all_above, ascending, place, over_less, less_over,
}

module _ {K : Type 0} {order_of : K → K → KeyOrder} (o : IsOrder order_of) where
  pub inside-insert_at :
      (i : ℕ) (lo hi : Option K) (key : K) (ks : List K)
      → inside order_of lo hi ks ≡ true
      → over order_of lo key ≡ true
      → under order_of hi key ≡ true
      → inside order_of lo hi (insert_at i key ks) ≡ true
  inside-insert_at zero lo hi key ks h l u = ground arith
  inside-insert_at (suc i) lo hi key [] h l u = ground arith
  inside-insert_at (suc i) lo hi key (k ∷ ks) h l u =
      ground (arith, inside-insert_at i lo hi key ks)

  all_above-insert_at :
      (i : ℕ) (x key : K) (ks : List K)
      → all_above order_of x ks ≡ true
      → less order_of x key ≡ true
      → all_above order_of x (insert_at i key ks) ≡ true
  all_above-insert_at zero x key ks h l = ground arith
  all_above-insert_at (suc i) x key [] h l = ground arith
  all_above-insert_at (suc i) x key (k ∷ ks) h l = ground (arith, all_above-insert_at i x key ks)

  pub all_above-less :
      (x k : K) (ks : List K)
      → less order_of x k ≡ true
      → all_above order_of k ks ≡ true
      → all_above order_of x ks ≡ true
  all_above-less x k [] h e = refl
  all_above-less x k (y ∷ ys) h e = ground (arith, all_above-less x k ys, o.less_trans x k y)

  pub ascending-insert_at :
      (key : K) (ks : List K)
      → ascending order_of ks ≡ true
      → holds_key order_of (get_elem? ks (place o key ks)) key ≡ false
      → ascending order_of (insert_at (place o key ks) key ks) ≡ true
  ascending-insert_at key [] h e = refl
  ascending-insert_at key (k ∷ ks) h e = ground (
    arith,
    ascending-insert_at key ks,
    o.flips k key,
    all_above-less key k ks,
    all_above-insert_at (place o key ks) k key ks,
  )

  inside-above :
      (lo hi : Option K) (k : K) (ks : List K)
      → inside order_of lo hi ks ≡ true
      → all_above order_of k ks ≡ true
      → inside order_of (some k) hi ks ≡ true
  inside-above lo hi k [] h a = refl
  inside-above lo hi k (x ∷ ks) h a = ground (arith, inside-above lo hi k ks, o.flips k x)

  all_above-at :
      (k s : K) (n : ℕ) (ks : List K)
      → all_above order_of k ks ≡ true
      → get_elem? ks n ≡ some s
      → less order_of k s ≡ true
  all_above-at k s n [] h e = cc e
  all_above-at k s zero (x ∷ ks) h e = ground arith
  all_above-at k s (suc n) (x ∷ ks) h e = ground (arith, all_above-at k s n ks)

  pub inside-take :
      (lo hi : Option K) (n : ℕ) (s : K) (ks : List K)
      → inside order_of lo hi ks ≡ true
      → ascending order_of ks ≡ true
      → get_elem? ks n ≡ some s
      → inside order_of lo (some s) (take n ks) ≡ true
  inside-take lo hi zero s ks h a e = refl
  inside-take lo hi (suc n) s [] h a e = refl
  inside-take lo hi (suc n) s (k ∷ ks) h a e =
      ground (arith, inside-take lo hi n s ks, all_above-at k s n ks)

  pub inside-drop :
      (lo hi : Option K) (n : ℕ) (s : K) (ks : List K)
      → inside order_of lo hi ks ≡ true
      → ascending order_of ks ≡ true
      → get_elem? ks n ≡ some s
      → inside order_of (some s) hi (drop n ks) ≡ true
  inside-drop lo hi n s [] h a e = cc e
  inside-drop lo hi zero s (k ∷ ks) h a e = ground (arith, inside-above lo hi k ks, o.same s)
  inside-drop lo hi (suc n) s (k ∷ ks) h a e = ground (arith, inside-drop lo hi n s ks)

  pub inside-at :
      (lo hi : Option K) (n : ℕ) (s : K) (ks : List K)
      → inside order_of lo hi ks ≡ true
      → get_elem? ks n ≡ some s
      → under order_of hi s ≡ true
  inside-at lo hi n s [] h e = cc e
  inside-at lo hi zero s (k ∷ ks) h e = ground arith
  inside-at lo hi (suc n) s (k ∷ ks) h e = ground (arith, inside-at lo hi n s ks)

  -- A key that is not the first of a node is past the node's lower end.
  pub inside-beyond :
      (lo hi : Option K) (n : ℕ) (s : K) (ks : List K)
      → inside order_of lo hi ks ≡ true
      → ascending order_of ks ≡ true
      → get_elem? ks (suc n) ≡ some s
      → beyond order_of lo s ≡ true
  inside-beyond none hi n s ks h a e = refl
  inside-beyond (some l) hi n s [] h a e = cc e
  inside-beyond (some l) hi n s (k ∷ ks) h a e =
      ground (arith, over_less o l k s, all_above-at k s n ks)

  all_above-take :
      (k : K) (n : ℕ) (ks : List K)
      → all_above order_of k ks ≡ true
      → all_above order_of k (take n ks) ≡ true
  all_above-take k zero ks h = refl
  all_above-take k (suc n) [] h = refl
  all_above-take k (suc n) (x ∷ ks) h = ground (arith, all_above-take k n ks)

  pub ascending-take :
      (n : ℕ) (ks : List K) → ascending order_of ks ≡ true → ascending order_of (take n ks) ≡ true
  ascending-take zero ks h = refl
  ascending-take (suc n) [] h = refl
  ascending-take (suc n) (k ∷ ks) h = ground (arith, ascending-take n ks, all_above-take k n ks)

  pub ascending-drop :
      (n : ℕ) (ks : List K) → ascending order_of ks ≡ true → ascending order_of (drop n ks) ≡ true
  ascending-drop zero ks h = h
  ascending-drop (suc n) [] h = refl
  ascending-drop (suc n) (k ∷ ks) h = ascending-drop n ks (ground arith)

  pub inside-all_above :
      (k s : K) (hi : Option K) (ks : List K)
      → inside order_of (some s) hi ks ≡ true
      → less order_of k s ≡ true
      → all_above order_of k ks ≡ true
  inside-all_above k s hi [] h l = refl
  inside-all_above k s hi (x ∷ ks) h l =
      ground (arith, inside-all_above k s hi ks, less_over o k s x)

  all_above-append :
      (k : K) (xs ys : List K)
      → all_above order_of k xs ≡ true
      → all_above order_of k ys ≡ true
      → all_above order_of k (xs ++ ys) ≡ true
  all_above-append k [] ys h e = e
  all_above-append k (x ∷ xs) ys h e = ground (arith, all_above-append k xs ys)

  pub ascending-append :
      (lo hi : Option K) (s : K) (xs ys : List K)
      → inside order_of lo (some s) xs ≡ true
      → inside order_of (some s) hi ys ≡ true
      → ascending order_of xs ≡ true
      → ascending order_of ys ≡ true
      → ascending order_of (xs ++ ys) ≡ true
  ascending-append lo hi s [] ys h e a b = b
  ascending-append lo hi s (x ∷ xs) ys h e a b =
      ground (
        arith,
        ascending-append lo hi s xs ys,
        inside-all_above x s hi ys,
        all_above-append x xs ys,
      )

  -- Wider ends hold the same keys.
  pub inside-append :
      (lo hi : Option K) (s : K) (xs ys : List K)
      → inside order_of lo (some s) xs ≡ true
      → inside order_of (some s) hi ys ≡ true
      → beyond order_of lo s ≡ true
      → under order_of hi s ≡ true
      → inside order_of lo hi (xs ++ ys) ≡ true
  inside-append none hi s [] [] h e l u = refl
  inside-append (some m) hi s [] [] h e l u = refl
  inside-append none hi s [] (y ∷ ys) h e l u = ground (arith, inside-append none hi s [] ys)
  inside-append (some m) hi s [] (y ∷ ys) h e l u =
      ground (arith, inside-append (some m) hi s [] ys, less_over o m s y, o.flips m y)
  inside-append lo none s (x ∷ xs) ys h e l u = ground (arith, inside-append lo none s xs ys)
  inside-append lo (some m) s (x ∷ xs) ys h e l u =
      ground (arith, inside-append lo (some m) s xs ys, o.less_trans x s m)
