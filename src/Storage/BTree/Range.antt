-- ===== src/Storage/BTree/Range.antt =====
-- `range` of src/storage/btree.ts: the descent to a leaf, and the walk along the links. A bound that is none
-- is null.
use query_engine.Prelude.{
  ℕ, zero, suc, ◌+◌, Bool, true, false, not, ◌&&◌, ◌||◌, Option, none, some, List, [], ◌∷◌, ◌++◌,
  length, get_elem?, ◌==◌, if◌then◌else◌,
}
use query_engine.Storage.BTree.{
  KeyOrder, is_equal, is_greater, RowLocation, BTreeLeaf, BTreeNode, leaf_node, inner_node,
  BTreeNodes, no_nodes, node_then, BTreeIndex, drop,
}
use query_engine.Storage.BTree.Operations.{holds_key, find_index, leaf_for}
use query_engine.Storage.BTree.Entries.{Entries, zip}
use query_engine.Storage.BTree.Formed.{collect}

-- The leaves in the order of the tree
abbrev pub one_leaf : {K : Type 0} → BTreeLeaf K → List (BTreeLeaf K)
one_leaf leaf = leaf ∷ []

abbrev pub node_leaves : {K : Type 0} → BTreeNode K → List (BTreeLeaf K)
node_leaves n = collect one_leaf n

-- The leaf that a link names
abbrev pub leaf_with : {K : Type 0} → ℕ → List (BTreeLeaf K) → Option (BTreeLeaf K)
leaf_with i [] = none
leaf_with i (leaf ∷ leaves) =
    let rest = leaf_with i leaves in if leaf.leaf_id == i then some leaf else rest

abbrev pub next_leaf : {K : Type 0} → List (BTreeLeaf K) → Option ℕ → Option (BTreeLeaf K)
next_leaf leaves none = none
next_leaf leaves (some i) = leaf_with i leaves

-- `children[0]` down to a leaf
unfoldable mutual
  pub first_leaf : {K : Type 0} → BTreeNode K → Option (BTreeLeaf K)
  first_leaf (leaf_node leaf) = some leaf
  first_leaf (inner_node ks children) = first_leaf_child children

  pub first_leaf_child : {K : Type 0} → BTreeNodes K → Option (BTreeLeaf K)
  first_leaf_child no_nodes = none
  first_leaf_child (node_then n ns) = first_leaf n

module _ {K : Type 0} (order_of : K → K → KeyOrder) where
  -- A key past the upper end returns.
  abbrev pub past : Option K → Bool → K → Bool
  past none high_inclusive k = false
  past (some high) high_inclusive k =
      is_greater (order_of k high) || (is_equal (order_of k high) && not high_inclusive)

  -- The inner loop on the entries of a leaf: what it yields, and whether it returns.
  abbrev pub scan_leaf : Option K → Bool → Entries K → List RowLocation × Bool
  scan_leaf high high_inclusive [] = ([], false)
  scan_leaf high high_inclusive (e ∷ rest) =
      let more = scan_leaf high high_inclusive rest in
      if past high high_inclusive (e.0) then ([], true) else (e.1 ++ more.0, more.1)

  -- The outer loop. Each round goes on to the next leaf, so the number of leaves is enough fuel.
  unfoldable pub range_loop :
      Option K → Bool → List (BTreeLeaf K) → ℕ → Option (BTreeLeaf K) → ℕ → List RowLocation
  range_loop high high_inclusive leaves fuel none i = []
  range_loop high high_inclusive leaves zero (some leaf) i = []
  range_loop high high_inclusive leaves (suc fuel) (some leaf) i =
      let found = scan_leaf high high_inclusive (zip (drop i leaf.keys) (drop i leaf.values)) in
      let later = range_loop high high_inclusive leaves fuel (next_leaf leaves leaf.next_id) 0 in
      if found.1 then found.0 else found.0 ++ later

  unfoldable pub start_leaf : Option K → BTreeNode K → Option (BTreeLeaf K)
  unfolding leaf_for first_leaf
  start_leaf none root = first_leaf root
  start_leaf (some low) root = leaf_for order_of low root

  unfoldable pub start_at : Option K → Bool → List K → ℕ
  unfolding find_index
  start_at none low_inclusive ks = 0
  start_at (some low) low_inclusive ks =
      let pos = find_index order_of ks low in
      if not low_inclusive && holds_key order_of (get_elem? ks pos) low then pos + 1 else pos

  abbrev pub range_from :
      Option K
      → Option K
      → Bool
      → Bool
      → List (BTreeLeaf K)
      → Option (BTreeLeaf K)
      → Option (List RowLocation)
  range_from low high low_inclusive high_inclusive leaves none = none
  range_from low high low_inclusive high_inclusive leaves (some leaf) = some (
      range_loop high high_inclusive leaves (length leaves) (some leaf)
        (start_at low low_inclusive leaf.keys))

  unfoldable pub range :
      Option K → Option K → Bool → Bool → BTreeIndex K → Option (List RowLocation)
  unfolding start_leaf range_loop start_at
  range low high low_inclusive high_inclusive t =
      range_from low high low_inclusive high_inclusive (node_leaves t.root) (start_leaf low t.root)
