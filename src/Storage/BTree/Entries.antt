-- ===== src/Storage/BTree/Entries.antt =====
-- The entries of a leaf of src/storage/btree.ts as a sorted association list.
use query_engine.Prelude.{
  ℕ, ◌≡◌, ◌⊎◌, refl, Bool, true, false, not, ◌&&◌, Option, none, some, List, [], ◌∷◌, ◌++◌, length,
  get_elem?, if◌then◌else◌, arith, inl, inr,
}
use query_engine.Storage.BTree.{
  KeyOrder, key_less, key_equal, key_greater, is_less, is_equal, RowLocation, insert_at, push_at,
}
use query_engine.Storage.BTree.Operations.{holds_key, find_index}
use query_engine.Storage.BTree.Keys.{IsOrder}
use query_engine.Storage.BTree.Find.{prefix_length, parted, none_pass, find_first-prefix}

pub order-cases : (x : KeyOrder) → (x ≡ key_less) ⊎ ((x ≡ key_equal) ⊎ (x ≡ key_greater))
order-cases key_less = inl refl
order-cases key_equal = inr (inl refl)
order-cases key_greater = inr (inr refl)

abbrev pub Entries : Type 0 → Type 0
Entries K = List (K × List RowLocation)

abbrev pub zip : {K : Type 0} → List K → List (List RowLocation) → Entries K
zip [] vs = []
zip (k ∷ ks) [] = []
zip (k ∷ ks) (v ∷ vs) = (k, v) ∷ zip ks vs

abbrev pub entry_keys : {K : Type 0} → Entries K → List K
entry_keys [] = []
entry_keys (e ∷ rest) = e.0 ∷ entry_keys rest

module _ {K : Type 0} (order_of : K → K → KeyOrder) where
  abbrev pub put_by :
      KeyOrder → K → RowLocation → K → List RowLocation → Entries K → Entries K → Entries K
  put_by key_less key v k vs rest more = (k, vs) ∷ more
  put_by key_equal key v k vs rest more = (k, vs ++ v ∷ []) ∷ rest
  put_by key_greater key v k vs rest more = (key, v ∷ []) ∷ (k, vs) ∷ rest

  -- A location is added at its key.
  abbrev pub put : K → RowLocation → Entries K → Entries K
  put key v [] = (key, v ∷ []) ∷ []
  put key v (e ∷ rest) = put_by (order_of (e.0) key) key v (e.0) (e.1) rest (put key v rest)

  -- The locations of a key
  abbrev pub locations : K → Entries K → List RowLocation
  locations key [] = []
  locations key (e ∷ rest) =
      let more = locations key rest in if is_equal (order_of (e.0) key) then e.1 else more

  abbrev pub less : K → K → Bool
  less a b = is_less (order_of a b)

  abbrev pub over : Option K → K → Bool
  over none k = true
  over (some l) k = not (less k l)

  abbrev pub beyond : Option K → K → Bool
  beyond none k = true
  beyond (some l) k = less l k

  abbrev pub under : Option K → K → Bool
  under none k = true
  under (some h) k = less k h

  abbrev pub inside : Option K → Option K → List K → Bool
  inside lo hi [] = true
  inside lo hi (k ∷ ks) = over lo k && (under hi k && inside lo hi ks)

  abbrev pub all_above : K → List K → Bool
  all_above k [] = true
  all_above k (x ∷ xs) = less k x && all_above k xs

  abbrev pub ascending : List K → Bool
  ascending [] = true
  ascending (k ∷ ks) = all_above k ks && ascending ks

module _ {K : Type 0} {order_of : K → K → KeyOrder} (o : IsOrder order_of) where
  pub all_above-none_less :
      (key k : K) (ks : List K)
      → all_above order_of k ks ≡ true
      → less order_of k key ≡ false
      → none_pass (λ x. less order_of x key) ks ≡ true
  all_above-none_less key k [] h e = refl
  all_above-none_less key k (x ∷ xs) h e =
      ground (arith, all_above-none_less key k xs, o.less_trans k x key)

  pub ascending-parted :
      (key : K) (ks : List K)
      → ascending order_of ks ≡ true
      → parted (λ x. less order_of x key) ks ≡ true
  ascending-parted key [] h = refl
  ascending-parted key (k ∷ ks) h =
      ground (arith, ascending-parted key ks, all_above-none_less key k ks)

  abbrev pub place : K → List K → ℕ
  place key ks = prefix_length (λ x. less order_of x key) ks

  pub find_index-place :
      (ks : List K) (key : K)
      → ascending order_of ks ≡ true
      → find_index order_of ks key ≡ place key ks
  unfolding find_index
  find_index-place ks key h =
      find_first-prefix (λ x. less order_of x key) ks (ascending-parted key ks h)

  pub over_less :
      (l k s : K) → less order_of k l ≡ false → less order_of k s ≡ true → less order_of l s ≡ true
  over_less l k s h e = ground (arith, o.flips k l, o.equal_same k l s, o.less_trans l k s)

  pub less_over :
      (a b c : K) → less order_of a b ≡ true → less order_of c b ≡ false → less order_of a c ≡ true
  less_over a b c h e =
      ground (arith, o.flips c b, o.flips c a, o.flips b a, o.equal_same c b a, o.less_trans a b c)

  -- The writes of `_insertInternal` on a leaf
  pub zip-push_at :
      (key : K) (v : RowLocation) (ks : List K) (vs : List (List RowLocation))
      → length ks ≡ length vs
      → holds_key order_of (get_elem? ks (place key ks)) key ≡ true
      → zip ks (push_at (place key ks) v vs) ≡ put order_of key v (zip ks vs)
  zip-push_at key v [] vs n h = cc h
  zip-push_at key v (k ∷ ks) [] n h = absurd (omega arith)
  zip-push_at key v (k ∷ ks) (w ∷ ws) n h = ground (arith, zip-push_at key v ks ws)

  pub zip-insert_at :
      (key : K) (v : RowLocation) (ks : List K) (vs : List (List RowLocation))
      → length ks ≡ length vs
      → holds_key order_of (get_elem? ks (place key ks)) key ≡ false
      → zip (insert_at (place key ks) key ks) (insert_at (place key ks) (v ∷ []) vs)
        ≡ put order_of key v (zip ks vs)
  zip-insert_at key v [] [] n h = refl
  zip-insert_at key v [] (w ∷ ws) n h = absurd (omega arith)
  zip-insert_at key v (k ∷ ks) [] n h = absurd (omega arith)
  zip-insert_at key v (k ∷ ks) (w ∷ ws) n h = ground (arith, zip-insert_at key v ks ws)
