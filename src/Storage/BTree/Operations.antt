-- ===== src/Storage/BTree/Operations.antt =====
-- The methods of `BTreeIndex` in src/storage/btree.ts.
use query_engine.Prelude.{
  ℕ, zero, suc, ◌+◌, ◌/◌, Bool, false, not, Option, none, some, List, [], ◌∷◌, length, get_elem?,
  get_or, leb, if◌then◌else◌,
}
use query_engine.Storage.BTree.{
  KeyOrder, is_less, is_equal, is_greater, RowLocation, BTreeLeaf, BTreeNode, leaf_node, inner_node,
  BTreeNodes, no_nodes, node_then, SplitResult, BTreeIndex, insert_at, take, drop, push_at,
  insert_node_at, take_nodes, drop_nodes, find_first,
}

unfoldable pub b_tree_index : {K : Type 0} → BTreeIndex K
b_tree_index = record {
  root = leaf_node (record { leaf_id = 0; keys = []; values = []; next_id = none });
  fresh_id = 1;
}

module _ {K : Type 0} (order_of : K → K → KeyOrder) where
  -- `_findIndex`: the first key that is not less
  unfoldable pub find_index : List K → K → ℕ
  unfolding find_first
  find_index ks key = find_first (λ k. is_less (order_of k key)) ks

  -- `_findChildIndex`: the first key that is greater
  unfoldable pub find_child_index : List K → K → ℕ
  unfolding find_first
  find_child_index ks key = find_first (λ k. not (is_greater (order_of k key))) ks

  abbrev pub holds_key : Option K → K → Bool
  holds_key none key = false
  holds_key (some k) key = is_equal (order_of k key)

  unfoldable pub search_leaf : K → BTreeLeaf K → List RowLocation
  unfolding find_index
  search_leaf key leaf =
      let pos = find_index leaf.keys key in
      if holds_key (get_elem? leaf.keys pos) key then get_or leaf.values pos [] else []

module _ {K : Type 0} where
  abbrev pub split_at_key :
      BTreeLeaf K → ℕ → ℕ → Option K → Option (BTreeNode K × Option (SplitResult K))
  split_at_key leaf mid fresh none = none
  split_at_key leaf mid fresh (some key) = some (
    leaf_node (record leaf {
      keys = take mid leaf.keys;
      values = take mid leaf.values;
      next_id = some fresh;
    }),
    some (record {
      key = key;
      right = leaf_node (record {
        leaf_id = fresh;
        keys = drop mid leaf.keys;
        values = drop mid leaf.values;
        next_id = leaf.next_id;
      });
    }),
  )

  -- `_splitLeaf`. None stands for an undefined separator, which no leaf of two keys gives.
  unfoldable pub split_leaf : ℕ → BTreeLeaf K → Option (BTreeNode K × Option (SplitResult K))
  split_leaf fresh leaf =
      let mid = (length leaf.keys + 1) / 2 in
      split_at_key leaf mid fresh (get_elem? (drop mid leaf.keys) 0)

  abbrev pub split_at_node :
      List K → BTreeNodes K → ℕ → Option K → Option (BTreeNode K × Option (SplitResult K))
  split_at_node ks children mid none = none
  split_at_node ks children mid (some key) = some (
    inner_node (take mid ks) (take_nodes (mid + 1) children),
    some (record {
      key = key;
      right = inner_node (drop (mid + 1) ks) (drop_nodes (mid + 1) children);
    }),
  )

  -- `_splitInternal`. None stands for an undefined separator, which no node with a key gives.
  unfoldable pub split_internal :
      List K → BTreeNodes K → Option (BTreeNode K × Option (SplitResult K))
  split_internal ks children =
      let mid = length ks / 2 in split_at_node ks children mid (get_elem? ks mid)

  abbrev pub replace_head :
      Option (BTreeNode K × Option (SplitResult K))
      → BTreeNodes K
      → Option (BTreeNodes K × Option (SplitResult K))
  replace_head none rest = none
  replace_head (some (n, result)) rest = some (node_then n rest, result)

  abbrev pub replace_tail :
      BTreeNode K
      → Option (BTreeNodes K × Option (SplitResult K))
      → Option (BTreeNodes K × Option (SplitResult K))
  replace_tail n none = none
  replace_tail n (some (ns, result)) = some (node_then n ns, result)

module _ {K : Type 0} (order_of : K → K → KeyOrder) (order : ℕ) where
  unfoldable pub insert_leaf :
      ℕ → K → RowLocation → BTreeLeaf K → Option (BTreeNode K × Option (SplitResult K))
  unfolding find_index split_leaf
  insert_leaf fresh key location leaf =
      let pos = find_index order_of leaf.keys key in
      let grown = record leaf {
        keys = insert_at pos key leaf.keys;
        values = insert_at pos (location ∷ []) leaf.values;
      } in
      if holds_key order_of (get_elem? leaf.keys pos) key
      then some (leaf_node (record leaf { values = push_at pos location leaf.values }), none)
      else if leb order (length grown.keys)
      then split_leaf fresh grown
      else some (leaf_node grown, none)

  -- `_insertInternal` on an inner node, from what it gave on the child
  unfoldable pub insert_inner :
      List K
      → Option (BTreeNodes K × Option (SplitResult K))
      → Option (BTreeNode K × Option (SplitResult K))
  unfolding find_index split_internal
  insert_inner ks none = none
  insert_inner ks (some (children, none)) = some (inner_node ks children, none)
  insert_inner ks (some (children, some result)) =
      let pos = find_index order_of ks result.key in
      let more = insert_at pos result.key ks in
      let nodes = insert_node_at (pos + 1) result.right children in
      if leb order (length more)
      then split_internal more nodes
      else some (inner_node more nodes, none)

-- `_insertInternal`, and the same on the child at an index, whose place it keeps.
unfoldable mutual
  unfolding insert_leaf insert_inner find_child_index

  pub insert_internal :
      {K : Type 0}
      → (K → K → KeyOrder)
      → ℕ
      → ℕ
      → K
      → RowLocation
      → BTreeNode K
      → Option (BTreeNode K × Option (SplitResult K))
  insert_internal order_of order fresh key location (leaf_node leaf) =
      insert_leaf order_of order fresh key location leaf
  insert_internal order_of order fresh key location (inner_node ks children) =
      insert_inner order_of order ks
        (insert_child order_of order fresh key location children (find_child_index order_of ks key))

  pub insert_child :
      {K : Type 0}
      → (K → K → KeyOrder)
      → ℕ
      → ℕ
      → K
      → RowLocation
      → BTreeNodes K
      → ℕ
      → Option (BTreeNodes K × Option (SplitResult K))
  insert_child order_of order fresh key location no_nodes i = none
  insert_child order_of order fresh key location (node_then n ns) zero =
      replace_head (insert_internal order_of order fresh key location n) ns
  insert_child order_of order fresh key location (node_then n ns) (suc i) =
      replace_tail n (insert_child order_of order fresh key location ns i)

abbrev pub new_root :
    {K : Type 0} → ℕ → Option (BTreeNode K × Option (SplitResult K)) → Option (BTreeIndex K)
new_root fresh none = none
new_root fresh (some (root, none)) = some (record { root = root; fresh_id = fresh })
new_root fresh (some (root, some result)) = some (record {
  root = inner_node (result.key ∷ []) (node_then root (node_then result.right no_nodes));
  fresh_id = fresh;
})

unfoldable pub insert :
    {K : Type 0} → (K → K → KeyOrder) → ℕ → K → RowLocation → BTreeIndex K → Option (BTreeIndex K)
unfolding insert_internal
insert order_of order key location t =
    new_root (t.fresh_id + 1) (insert_internal order_of order t.fresh_id key location t.root)

-- The descent of `search`, and of `range` to its first leaf
unfoldable mutual
  unfolding find_child_index

  pub leaf_for : {K : Type 0} → (K → K → KeyOrder) → K → BTreeNode K → Option (BTreeLeaf K)
  leaf_for order_of key (leaf_node leaf) = some leaf
  leaf_for order_of key (inner_node ks children) =
      leaf_for_child order_of key children (find_child_index order_of ks key)

  pub leaf_for_child :
      {K : Type 0} → (K → K → KeyOrder) → K → BTreeNodes K → ℕ → Option (BTreeLeaf K)
  leaf_for_child order_of key no_nodes i = none
  leaf_for_child order_of key (node_then n ns) zero = leaf_for order_of key n
  leaf_for_child order_of key (node_then n ns) (suc i) = leaf_for_child order_of key ns i

abbrev pub searched :
    {K : Type 0} → (K → K → KeyOrder) → K → Option (BTreeLeaf K) → Option (List RowLocation)
searched order_of key none = none
searched order_of key (some leaf) = some (search_leaf order_of key leaf)

unfoldable pub search :
    {K : Type 0} → (K → K → KeyOrder) → K → BTreeIndex K → Option (List RowLocation)
unfolding leaf_for search_leaf
search order_of key t = searched order_of key (leaf_for order_of key t.root)
