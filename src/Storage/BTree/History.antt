-- ===== src/Storage/BTree/History.antt =====
-- A tree of src/storage/btree.ts after any sequence of insertions.
use query_engine.Prelude.{
  ℕ, ◌≤◌, ◌≡◌, refl, sym, ap, ◌∙◌, Bool, true, false, Option, none, some, List, [], ◌∷◌, ◌++◌,
  if◌then◌else◌,
}
use mathlib.Core.List.{append-nil, append_assoc}
use query_engine.Storage.BTree.{KeyOrder, RowLocation, is_equal, BTreeIndex}
use query_engine.Storage.BTree.Keys.{IsOrder}
use query_engine.Storage.BTree.Entries.{Entries, put, locations}
use query_engine.Storage.BTree.Operations.{insert, search, b_tree_index}
use query_engine.Storage.BTree.Put.{locations-put}
use query_engine.Storage.BTree.Formed.{well_formed}
use query_engine.Storage.BTree.Search.{leaf_for-locations}
use query_engine.Storage.BTree.Split.{left_holds, right_holds}
use query_engine.Storage.BTree.Range.{node_leaves, range}
use query_engine.Storage.BTree.Links.{linked}
use query_engine.Storage.BTree.Scan.{selected}
use query_engine.Storage.BTree.Select.{range-selected}
use query_engine.Storage.BTree.Held.{Holds, insert-Holds, HeldBy-ascending, b_tree_index-Holds}

-- The rows inserted in turn
unfoldable pub insert_all :
    {K : Type 0}
    → (K → K → KeyOrder)
    → ℕ
    → List (K × RowLocation)
    → Option (BTreeIndex K)
    → Option (BTreeIndex K)
unfolding insert
insert_all order_of order rows none = none
insert_all order_of order [] (some t) = some t
insert_all order_of order (row ∷ rows) (some t) =
    insert_all order_of order rows (insert order_of order (row.0) (row.1) t)

abbrev pub search_in :
    {K : Type 0} → (K → K → KeyOrder) → K → Option (BTreeIndex K) → Option (List RowLocation)
search_in order_of key none = none
search_in order_of key (some t) = search order_of key t

-- The locations of the rows whose key compares as equal, in the order of the rows
abbrev pub rows_at :
    {K : Type 0} → (K → K → KeyOrder) → K → List (K × RowLocation) → List RowLocation
rows_at order_of key [] = []
rows_at order_of key (row ∷ rows) =
    let rest = rows_at order_of key rows in
    if is_equal (order_of (row.0) key) then row.1 ∷ rest else rest

-- The rows put in turn into sorted entries, the reference for a tree
abbrev pub put_all :
    {K : Type 0} → (K → K → KeyOrder) → List (K × RowLocation) → Entries K → Entries K
put_all order_of [] e = e
put_all order_of (row ∷ rows) e = put_all order_of rows (put order_of (row.0) (row.1) e)

abbrev pub range_in :
    {K : Type 0}
    → (K → K → KeyOrder)
    → Option K
    → Option K
    → Bool
    → Bool
    → Option (BTreeIndex K)
    → Option (List RowLocation)
range_in order_of low high low_inclusive high_inclusive none = none
range_in order_of low high low_inclusive high_inclusive (some t) =
    range order_of low high low_inclusive high_inclusive t

if-append :
    (b : Bool) (xs : List RowLocation) (v : RowLocation) (ys : List RowLocation)
    → (if b then xs ++ v ∷ [] else xs) ++ ys ≡ xs ++ (if b then v ∷ ys else ys)
if-append true xs v ys = append_assoc xs (v ∷ []) ys
if-append false xs v ys = refl

module _ {K : Type 0} {order_of : K → K → KeyOrder} (o : IsOrder order_of) (order : ℕ) where
  insert_all-Holds :
      (rows : List (K × RowLocation)) (t : Option (BTreeIndex K)) (e : Entries K)
      → 2 ≤ order
      → Holds o order e t
      → Holds o order (put_all order_of rows e) (insert_all order_of order rows t)
  unfolding insert_all
  insert_all-Holds rows none e two h = cc h
  insert_all-Holds [] (some t) e two h = h
  insert_all-Holds (row ∷ rows) (some t) e two h =
      insert_all-Holds rows (insert order_of order (row.0) (row.1) t)
        (put order_of (row.0) (row.1) e) two (insert-Holds o order (row.0) (row.1) t e two h)

  locations-put_all :
      (key : K) (rows : List (K × RowLocation)) (t : Option (BTreeIndex K)) (e : Entries K)
      → 2 ≤ order
      → Holds o order e t
      → locations order_of key (put_all order_of rows e)
        ≡ locations order_of key e ++ rows_at order_of key rows
  locations-put_all key rows none e two h = cc h
  locations-put_all key [] (some t) e two h = sym (append-nil (locations order_of key e))
  locations-put_all key (row ∷ rows) (some t) e two h =
      locations-put_all key rows (insert order_of order (row.0) (row.1) t)
        (put order_of (row.0) (row.1) e) two (insert-Holds o order (row.0) (row.1) t e two h)
      ∙ ap (λ vs. vs ++ rows_at order_of key rows)
          (locations-put o key (row.0) (row.1) e (HeldBy-ascending o order t e h))
      ∙ if-append (is_equal (order_of (row.0) key)) (locations order_of key e) (row.1)
          (rows_at order_of key rows)

  grown_tree-Holds :
      2 ≤ order
      → (rows : List (K × RowLocation))
      → Holds o order
          (put_all order_of rows [])
          (insert_all order_of order rows (some b_tree_index))
  grown_tree-Holds two rows =
      insert_all-Holds rows (some b_tree_index) [] two (b_tree_index-Holds o order two)

  search-Holds :
      (key : K) (t : Option (BTreeIndex K)) (e : Entries K)
      → Holds o order e t
      → search_in order_of key t ≡ some (locations order_of key e)
  unfolding search
  search-Holds key none e h = cc h
  search-Holds key (some t) e h =
      leaf_for-locations o order key h.depth none none t.root h.formed
      ∙ ap (λ es. some (locations order_of key es)) h.same_entries

  -- In a tree grown from the empty one by any rows, `search` finds the locations of the rows whose key
  -- compares as equal, and only those, in the order of their insertion. The keys are ordered, and a node
  -- may hold a key (`order` is 2 at least).
  pub search-insert_all :
      2 ≤ order
      → (rows : List (K × RowLocation)) (key : K)
      → search_in order_of key (insert_all order_of order rows (some b_tree_index))
        ≡ some (rows_at order_of key rows)
  search-insert_all two rows key =
      search-Holds key (insert_all order_of order rows (some b_tree_index))
        (put_all order_of rows []) (grown_tree-Holds two rows)
      ∙ ap some
          (locations-put_all key rows (some b_tree_index) [] two (b_tree_index-Holds o order two))

  range-Holds :
      (low high : Option K) (li hi : Bool) (t : Option (BTreeIndex K)) (e : Entries K)
      → Holds o order e t
      → range_in order_of low high li hi t ≡ some (selected order_of low high li hi e)
  range-Holds low high li hi none e h = cc h
  range-Holds low high li hi (some t) e h =
      range-selected o order high li hi low h.depth t h.formed (left_holds _ _ h.links)
        (left_holds _ _ (right_holds _ _ h.links))
      ∙ ap (λ es. some (selected order_of low high li hi es)) h.same_entries

  -- In a tree grown from the empty one by any rows, `range` yields the locations of the keys between the
  -- two ends, each end left out or not as asked and absent when it is null, in ascending order of the
  -- keys: what the sorted entries of the rows hold there. The keys are ordered, and `order` is 2 at
  -- least.
  pub range-insert_all :
      2 ≤ order
      → (rows : List (K × RowLocation)) (low high : Option K) (low_inclusive high_inclusive : Bool)
      → range_in order_of low high low_inclusive high_inclusive
          (insert_all order_of order rows (some b_tree_index))
        ≡ some (selected order_of low high low_inclusive high_inclusive (put_all order_of rows []))
  range-insert_all two rows low high li hi =
      range-Holds low high li hi (insert_all order_of order rows (some b_tree_index))
        (put_all order_of rows []) (grown_tree-Holds two rows)

  Holds-balanced :
      (t : Option (BTreeIndex K)) (e : Entries K)
      → Holds o order e t
      → (tree : BTreeIndex K) × ((t ≡ some tree)
          × ((linked (node_leaves tree.root) ≡ true)
              × ((d : ℕ) × (well_formed order_of order d none none tree.root ≡ true))))
  Holds-balanced none e h = cc h
  Holds-balanced (some t) e h = (t, (refl, (left_holds _ _ h.links, (h.depth, h.formed))))

  -- Any rows grow the empty tree to one whose leaves stand at one depth, each linked to the one after it,
  -- whose nodes have fewer than `order` keys, whose keys ascend and whose separators stand between the keys
  -- of the children beside them. The keys are ordered, and `order` is 2 at least.
  pub insert_all-balanced :
      2 ≤ order
      → (rows : List (K × RowLocation))
      → (tree : BTreeIndex K) × ((insert_all order_of order rows (some b_tree_index) ≡ some tree)
          × ((linked (node_leaves tree.root) ≡ true)
              × ((d : ℕ) × (well_formed order_of order d none none tree.root ≡ true))))
  insert_all-balanced two rows =
      Holds-balanced (insert_all order_of order rows (some b_tree_index)) (put_all order_of rows [])
        (grown_tree-Holds two rows)
