-- ===== src/Storage/BTree/Put.antt =====
-- What is written and read in the entries of a tree of src/storage/btree.ts.
use query_engine.Prelude.{
  ◌≡◌, refl, ap, true, false, Option, some, List, [], ◌∷◌, ◌++◌, length, if◌then◌else◌, arith,
}
use query_engine.Storage.BTree.{KeyOrder, is_equal, RowLocation}
use query_engine.Storage.BTree.Keys.{IsOrder}
use query_engine.Storage.BTree.Entries.{
  Entries, zip, entry_keys, put, locations, less, inside, all_above, ascending, over_less,
  less_over,
}

pub entry_keys-zip :
    {K : Type 0} (ks : List K) (vs : List (List RowLocation))
    → length ks ≡ length vs
    → entry_keys (zip ks vs) ≡ ks
entry_keys-zip [] vs n = refl
entry_keys-zip (k ∷ ks) [] n = absurd (omega arith)
entry_keys-zip (k ∷ ks) (v ∷ vs) n = ap (λ xs. k ∷ xs) (entry_keys-zip ks vs (omega arith))

module _ {K : Type 0} {order_of : K → K → KeyOrder} (o : IsOrder order_of) where
  -- A key at or past a separator is written behind it.
  pub put-append_right :
      (lo : Option K) (s key : K) (v : RowLocation) (a b : Entries K)
      → inside order_of lo (some s) (entry_keys a) ≡ true
      → less order_of key s ≡ false
      → put order_of key v (a ++ b) ≡ a ++ put order_of key v b
  put-append_right lo s key v [] b h l = refl
  put-append_right lo s key v (e ∷ a) b h l =
      ground (arith, put-append_right lo s key v a b, less_over o (e.0) s key)

  -- A key before a separator is written before it.
  put-before :
      (s key : K) (hi : Option K) (v : RowLocation) (b : Entries K)
      → inside order_of (some s) hi (entry_keys b) ≡ true
      → less order_of key s ≡ true
      → put order_of key v b ≡ (key, v ∷ []) ∷ b
  put-before s key hi v [] h l = refl
  put-before s key hi v (e ∷ b) h l = ground (arith, less_over o key s (e.0), o.flips (e.0) key)

  pub put-append_left :
      (s key : K) (hi : Option K) (v : RowLocation) (a b : Entries K)
      → inside order_of (some s) hi (entry_keys b) ≡ true
      → less order_of key s ≡ true
      → put order_of key v (a ++ b) ≡ put order_of key v a ++ b
  put-append_left s key hi v [] b h l = put-before s key hi v b h l
  put-append_left s key hi v (e ∷ a) b h l = ground (arith, put-append_left s key hi v a b)

  pub locations-append_right :
      (lo : Option K) (s key : K) (a b : Entries K)
      → inside order_of lo (some s) (entry_keys a) ≡ true
      → less order_of key s ≡ false
      → locations order_of key (a ++ b) ≡ locations order_of key b
  locations-append_right lo s key [] b h l = refl
  locations-append_right lo s key (e ∷ a) b h l =
      ground (arith, locations-append_right lo s key a b, less_over o (e.0) s key)

  pub locations-before :
      (s key : K) (hi : Option K) (b : Entries K)
      → inside order_of (some s) hi (entry_keys b) ≡ true
      → less order_of key s ≡ true
      → locations order_of key b ≡ []
  locations-before s key hi [] h l = refl
  locations-before s key hi (e ∷ b) h l =
      ground (arith, locations-before s key hi b, less_over o key s (e.0), o.flips (e.0) key)

  pub locations-append_left :
      (s key : K) (hi : Option K) (a b : Entries K)
      → inside order_of (some s) hi (entry_keys b) ≡ true
      → less order_of key s ≡ true
      → locations order_of key (a ++ b) ≡ locations order_of key a
  locations-append_left s key hi [] b h l = locations-before s key hi b h l
  locations-append_left s key hi (e ∷ a) b h l = ground (arith, locations-append_left s key hi a b)

  pub locations-above :
      (k key : K) (b : Entries K)
      → all_above order_of k (entry_keys b) ≡ true
      → less order_of k key ≡ false
      → locations order_of key b ≡ []
  locations-above k key [] h l = refl
  locations-above k key (e ∷ b) h l = ground (
    arith,
    locations-above k key b,
    over_less o key k (e.0),
    o.flips k (e.0),
    o.flips (e.0) key,
    less_over o k (e.0) key,
  )

  -- What a key holds once a location is put at a key.
  pub locations-put :
      (key at : K) (v : RowLocation) (b : Entries K)
      → ascending order_of (entry_keys b) ≡ true
      → locations order_of key (put order_of at v b) ≡ (
          if is_equal (order_of at key)
          then locations order_of key b ++ v ∷ []
          else locations order_of key b)
  locations-put key at v [] h = refl
  locations-put key at v (e ∷ b) h = ground (
    arith,
    locations-put key at v b,
    o.equal_same (e.0) at key,
    o.equal_same at (e.0) key,
    o.flips (e.0) at,
    o.equal_same at key (e.0),
    o.flips key (e.0),
    locations-above (e.0) key b,
  )
