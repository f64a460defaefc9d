-- ===== src/Storage/BTree/Search.antt =====
-- What `search` of src/storage/btree.ts finds.
use query_engine.Prelude.{
  ℕ, zero, suc, ◌≡◌, refl, ap, true, not, Option, some, List, [], ◌∷◌, length, get_elem?, get_or,
  if◌then◌else◌, arith, Bool-cases, inl, inr,
}
use mathlib.Core.List.{append-nil}
use query_engine.Storage.BTree.{
  KeyOrder, RowLocation, BTreeLeaf, BTreeNode, leaf_node, inner_node, BTreeNodes, no_nodes,
  node_then, is_greater,
}
use query_engine.Storage.BTree.Keys.{IsOrder}
use query_engine.Storage.BTree.Entries.{
  zip, all_above, ascending, place, find_index-place, locations,
}
use query_engine.Storage.BTree.Find.{prefix_length, parted, none_pass, find_first-prefix}
use query_engine.Storage.BTree.Operations.{
  holds_key, find_child_index, search_leaf, leaf_for, leaf_for_child, searched,
}
use query_engine.Storage.BTree.Put.{
  entry_keys-zip, locations-above, locations-append_right, locations-append_left,
}
use query_engine.Storage.BTree.Formed.{
  entries, all_entries, well_formed, well_separated, entries-sorted, all_entries-sorted,
}

module _ {K : Type 0} {order_of : K → K → KeyOrder} (o : IsOrder order_of) (order : ℕ) where
  -- `_findChildIndex` counts the separators that are not greater.
  abbrev pub child_place : K → List K → ℕ
  child_place key ks = prefix_length (λ x. not (is_greater (order_of x key))) ks

  none_greater :
      (s key : K) (hi : Option K) (d : ℕ) (ks : List K) (ns : BTreeNodes K)
      → well_separated order_of order d (some s) hi ks ns ≡ true
      → is_greater (order_of s key) ≡ true
      → none_pass (λ x. not (is_greater (order_of x key))) ks ≡ true
  none_greater s key hi d [] ns h g = refl
  none_greater s key hi d (k ∷ ks) no_nodes h g = cc h
  none_greater s key hi d (k ∷ ks) (node_then n ns) h g =
      ground
        (arith, none_greater k key hi d ks ns, o.flips s key, o.flips k key, o.less_trans key s k)

  parted-separated :
      (key : K) (lo hi : Option K) (d : ℕ) (ks : List K) (ns : BTreeNodes K)
      → well_separated order_of order d lo hi ks ns ≡ true
      → parted (λ x. not (is_greater (order_of x key))) ks ≡ true
  parted-separated key lo hi d [] ns h = refl
  parted-separated key lo hi d (k ∷ ks) no_nodes h = cc h
  parted-separated key lo hi d (k ∷ ks) (node_then n ns) h =
      ground (arith, parted-separated key (some k) hi d ks ns, none_greater k key hi d ks ns)

  pub find_child_index-place :
      (key : K) (lo hi : Option K) (d : ℕ) (ks : List K) (ns : BTreeNodes K)
      → well_separated order_of order d lo hi ks ns ≡ true
      → find_child_index order_of ks key ≡ child_place key ks
  unfolding find_child_index
  find_child_index-place key lo hi d ks ns h =
      find_first-prefix (λ x. not (is_greater (order_of x key))) ks
        (parted-separated key lo hi d ks ns h)

  locations-zip :
      (key : K) (ks : List K) (vs : List (List RowLocation))
      → length ks ≡ length vs
      → ascending order_of ks ≡ true
      → (if holds_key order_of (get_elem? ks (place o key ks)) key
          then get_or vs (place o key ks) []
          else [])
        ≡ locations order_of key (zip ks vs)
  locations-zip key [] vs n h = refl
  locations-zip key (k ∷ ks) [] n h = absurd (omega arith)
  locations-zip key (k ∷ ks) (v ∷ vs) n h = ground (
    arith,
    locations-zip key ks vs,
    locations-above o k key (zip ks vs),
    ap (λ xs. all_above order_of k xs) (entry_keys-zip ks vs (omega arith)),
  )

  search_leaf-locations :
      (key : K) (lo hi : Option K) (leaf : BTreeLeaf K)
      → well_formed order_of order 0 lo hi (leaf_node leaf) ≡ true
      → search_leaf order_of key leaf ≡ locations order_of key (zip leaf.keys leaf.values)
  unfolding search_leaf
  search_leaf-locations key lo hi leaf h =
      rw (find_index-place o leaf.keys key (ground arith))
        (locations-zip key leaf.keys leaf.values (ground arith) (ground arith))

  mutual
    unfolding leaf_for

    pub leaf_for-locations :
        (key : K) (d : ℕ) (lo hi : Option K) (n : BTreeNode K)
        → well_formed order_of order d lo hi n ≡ true
        → searched order_of key (leaf_for order_of key n)
          ≡ some (locations order_of key (entries n))
    leaf_for-locations key zero lo hi (leaf_node leaf) h =
        ap some (search_leaf-locations key lo hi leaf h)
    leaf_for-locations key (suc d) lo hi (leaf_node leaf) h = cc h
    leaf_for-locations key zero lo hi (inner_node ks children) h = cc h
    leaf_for-locations key (suc d) lo hi (inner_node ks children) h =
        rw (find_child_index-place key lo hi d ks children (ground arith))
          (leaf_for_child-locations key d lo hi ks children (ground arith))

    leaf_for_child-locations :
        (key : K) (d : ℕ) (lo hi : Option K) (ks : List K) (ns : BTreeNodes K)
        → well_separated order_of order d lo hi ks ns ≡ true
        → searched order_of key (leaf_for_child order_of key ns (child_place key ks))
          ≡ some (locations order_of key (all_entries ns))
    leaf_for_child-locations key d lo hi [] no_nodes h = cc h
    leaf_for_child-locations key d lo hi (s ∷ ks) no_nodes h = cc h
    leaf_for_child-locations key d lo hi [] (node_then n no_nodes) h =
        rw (append-nil (entries n)) (leaf_for-locations key d lo hi n h)
    leaf_for_child-locations key d lo hi [] (node_then n (node_then m ms)) h = cc h
    leaf_for_child-locations key d lo hi (s ∷ ks) (node_then n ns) h =
        elim (Bool-cases (is_greater (order_of s key))) [
          | inl e ↦ rw e (
              rw
                (locations-append_left o s key hi (entries n) (all_entries ns)
                  (ground (arith, all_entries-sorted o order d (some s) hi ks ns))
                  (ground (arith, o.flips s key)))
                (leaf_for-locations key d lo (some s) n (ground arith)))
          | inr e ↦ rw e (
              rw
                (locations-append_right o lo s key (entries n) (all_entries ns)
                  (ground (arith, entries-sorted o order d lo (some s) n))
                  (ground (arith, o.flips s key)))
                (leaf_for_child-locations key d (some s) hi ks ns (ground arith)))
        ]
