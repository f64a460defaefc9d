-- ===== src/Storage/BTree/Relink.antt =====
-- `_insertInternal` of src/storage/btree.ts keeps the links between the leaves.
use query_engine.Prelude.{
  ℕ, zero, suc, ◌≤◌, ◌<◌, ◌≡◌, refl, ap, Bool, true, false, not, Option, none, some, List, [], ◌∷◌,
  length, get_elem?, leb, if◌then◌else◌, arith, Bool-cases, inl, inr,
}
use mathlib.Core.List.{append-nil}
use query_engine.Storage.BTree.{
  KeyOrder, RowLocation, BTreeLeaf, BTreeNode, leaf_node, inner_node, BTreeNodes, no_nodes,
  node_then, SplitResult, is_greater, insert_at,
}
use query_engine.Storage.BTree.Keys.{IsOrder}
use query_engine.Storage.BTree.Entries.{less, over, under}
use query_engine.Storage.BTree.Operations.{
  holds_key, find_index, split_leaf, split_at_key, insert_leaf, insert_internal, insert_child,
}
use query_engine.Storage.BTree.Formed.{collect_all, well_formed, well_separated}
use query_engine.Storage.BTree.Search.{child_place, find_child_index-place}
use query_engine.Storage.BTree.Grown.{
  result_of, child_of, grown, replace_head-collect_last, replace_head-collect, replace_tail-collect,
}
use query_engine.Storage.BTree.InsertLeaf.{Put}
use query_engine.Storage.BTree.Insert.{
  PutChildren, insert_internal-Put, insert_child-PutChildren, insert_inner-grown, separated-first,
  separated-rest, ascending-separators,
}
use query_engine.Storage.BTree.Range.{one_leaf, node_leaves}
use query_engine.Storage.BTree.Links.{
  Relinked, kept, parts, Relinked-append_right, Relinked-append_left,
}

module _ {K : Type 0} {order_of : K → K → KeyOrder} (o : IsOrder order_of) (order : ℕ) where
  -- The result, when it is well-formed, has the leaves relinked.
  Relinks :
      ℕ → Option K → Option K → BTreeLeaf K → Option (BTreeNode K × Option (SplitResult K)) → Type 0
  Relinks fresh lo hi leaf r =
      grown o order 0 lo hi r ≡ true → Relinked fresh (leaf ∷ []) (result_of one_leaf r)

  split_at_key-Relinks :
      (fresh : ℕ) (lo hi : Option K) (leaf new : BTreeLeaf K) (mid : ℕ) (s : Option K)
      → leaf.leaf_id ≡ new.leaf_id
      → leaf.next_id ≡ new.next_id
      → Relinks fresh lo hi leaf (split_at_key new mid fresh s)
  unfolding Relinks
  split_at_key-Relinks fresh lo hi leaf new mid none i n h = cc h
  split_at_key-Relinks fresh lo hi leaf new mid (some s) i n h = parts leaf _ _ [] i refl refl n

  choice-Relinks :
      (fresh : ℕ) (lo hi : Option K) (leaf : BTreeLeaf K) (b : Bool)
      (r q : Option (BTreeNode K × Option (SplitResult K)))
      → Relinks fresh lo hi leaf r
      → Relinks fresh lo hi leaf q
      → Relinks fresh lo hi leaf (if b then r else q)
  choice-Relinks fresh lo hi leaf true r q f g = f
  choice-Relinks fresh lo hi leaf false r q f g = g

  insert_leaf-Relinks :
      (fresh : ℕ) (lo hi : Option K) (key : K) (v : RowLocation) (leaf : BTreeLeaf K)
      → Relinks fresh lo hi leaf (insert_leaf order_of order fresh key v leaf)
  unfolding insert_leaf split_leaf Relinks
  insert_leaf-Relinks fresh lo hi key v leaf =
      let pos = find_index order_of leaf.keys key in
      let grown_leaf = record leaf {
        keys = insert_at pos key leaf.keys;
        values = insert_at pos (v ∷ []) leaf.values;
      } in
      choice-Relinks fresh lo hi leaf (holds_key order_of (get_elem? leaf.keys pos) key) _ _
        (λ h. kept leaf _ [] refl refl)
        (choice-Relinks fresh lo hi leaf (leb order (length grown_leaf.keys)) _ _
          (split_at_key-Relinks fresh lo hi leaf grown_leaf _ _ refl refl)
          (λ h. kept leaf _ [] refl refl))

  mutual
    unfolding insert_internal Put PutChildren Relinks

    pub insert_internal-Relinked :
        (fresh d : ℕ) (lo hi : Option K) (key : K) (v : RowLocation) (n : BTreeNode K)
        → well_formed order_of order d lo hi n ≡ true
        → over order_of lo key ≡ true
        → under order_of hi key ≡ true
        → 2 ≤ order
        → Relinked fresh
            (node_leaves n)
            (result_of one_leaf (insert_internal order_of order fresh key v n))
    insert_internal-Relinked fresh zero lo hi key v (leaf_node leaf) h l u two =
        insert_leaf-Relinks fresh lo hi key v leaf
          ((insert_internal-Put o order fresh 0 lo hi key v (leaf_node leaf) h l u two).0)
    insert_internal-Relinked fresh (suc d) lo hi key v (leaf_node leaf) h l u two = cc h
    insert_internal-Relinked fresh zero lo hi key v (inner_node ks ns) h l u two = cc h
    insert_internal-Relinked fresh (suc d) lo hi key v (inner_node ks ns) h l u two =
        let apart : well_separated order_of order d lo hi ks ns ≡ true = ground arith in
        let r = insert_child order_of order fresh key v ns (child_place o order key ks) in
        let p = insert_child-PutChildren o order fresh d lo hi key v ks ns apart l u two in
        let few : length ks < order = ground arith in
        rw
          (
            find_child_index-place o order key lo hi d ks ns apart,
            (insert_inner-grown o order one_leaf d lo hi ks r
                (ascending-separators o order d lo hi ks ns apart) (p.0) few two).1,
          )
          (insert_child-Relinked fresh d lo hi key v ks ns apart l u two)

    insert_child-Relinked :
        (fresh d : ℕ) (lo hi : Option K) (key : K) (v : RowLocation) (ks : List K)
        (ns : BTreeNodes K)
        → well_separated order_of order d lo hi ks ns ≡ true
        → over order_of lo key ≡ true
        → under order_of hi key ≡ true
        → 2 ≤ order
        → Relinked fresh (collect_all one_leaf ns) (
            child_of o order one_leaf ks
              (insert_child order_of order fresh key v ns (child_place o order key ks)))
    insert_child-Relinked fresh d lo hi key v [] no_nodes h l u two = cc h
    insert_child-Relinked fresh d lo hi key v (s ∷ ks) no_nodes h l u two = cc h
    insert_child-Relinked fresh d lo hi key v [] (node_then n no_nodes) h l u two =
        rw
          (
            append-nil (node_leaves n),
            replace_head-collect_last o order one_leaf
                (insert_internal order_of order fresh key v n),
          )
          (insert_internal-Relinked fresh d lo hi key v n h l u two)
    insert_child-Relinked fresh d lo hi key v [] (node_then n (node_then m ms)) h l u two = cc h
    insert_child-Relinked fresh d lo hi key v (s ∷ ks) (node_then n ns) h l u two =
        elim (Bool-cases (is_greater (order_of s key))) [
          | inl e ↦
              let before : less order_of key s ≡ true = ground (arith, o.flips s key) in
              let formed = separated-first o order d lo hi s ks n ns h in
              let r = insert_internal order_of order fresh key v n in
              let p = insert_internal-Put o order fresh d lo (some s) key v n formed l before two in
              rw (e, replace_head-collect o order one_leaf d lo s ks ns r (p.0))
                (Relinked-append_right (collect_all one_leaf ns)
                  (insert_internal-Relinked fresh d lo (some s) key v n formed l before two))
          | inr e ↦
              let after : less order_of key s ≡ false = ground (arith, o.flips s key) in
              let apart = separated-rest o order d lo hi s ks n ns h in
              let r = insert_child order_of order fresh key v ns (child_place o order key ks) in
              let p =
                insert_child-PutChildren o order fresh d (some s) hi key v ks ns apart
                  (ap not after) u two in
              rw (e, replace_tail-collect o order one_leaf d hi s ks n r (p.0))
                (Relinked-append_left (node_leaves n) (
                  insert_child-Relinked fresh d (some s) hi key v ks ns apart (ap not after) u two))
        ]
