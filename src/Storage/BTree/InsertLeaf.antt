-- ===== src/Storage/BTree/InsertLeaf.antt =====
-- `_insertInternal` of src/storage/btree.ts on a leaf.
use query_engine.Prelude.{
  ℕ, suc, ◌≤◌, ◌<◌, ◌≡◌, refl, sym, ap, ◌∙◌, true, Option, none, some, [], ◌∷◌, length, get_elem?,
  leb, if◌then◌else◌, arith, Bool-cases, inl, inr,
}
use query_engine.Storage.BTree.{
  KeyOrder, RowLocation, BTreeLeaf, BTreeNode, leaf_node, SplitResult, insert_at,
}
use query_engine.Storage.BTree.Keys.{IsOrder}
use query_engine.Storage.BTree.Entries.{
  Entries, zip, over, under, inside, ascending, place, find_index-place, put, zip-push_at,
  zip-insert_at,
}
use query_engine.Storage.BTree.Operations.{holds_key, split_leaf, insert_leaf}
use query_engine.Storage.BTree.Splice.{length-insert_at, length-push_at}
use query_engine.Storage.BTree.Cut.{inside-insert_at, ascending-insert_at}
use query_engine.Storage.BTree.Formed.{leaf_entries, well_formed, sorted_between}
use query_engine.Storage.BTree.Grown.{result_of, grown}
use query_engine.Storage.BTree.Split.{split_leaf-grown, both}

module _ {K : Type 0} {order_of : K → K → KeyOrder} (o : IsOrder order_of) (order : ℕ) where
  unfoldable pub Put :
      ℕ → Option K → Option K → Option (BTreeNode K × Option (SplitResult K)) → Entries K → Type 0
  Put d lo hi r e = (grown o order d lo hi r ≡ true) × (result_of leaf_entries r ≡ e)

  grown_leaf-Put :
      (fresh : ℕ) (lo hi : Option K) (leaf : BTreeLeaf K)
      → length leaf.keys ≡ length leaf.values
      → sorted_between o order lo hi leaf.keys ≡ true
      → length leaf.keys ≤ order
      → 2 ≤ order
      → Put 0 lo hi
          (if leb order (length leaf.keys)
            then split_leaf fresh leaf
            else some (leaf_node leaf, none))
          (zip leaf.keys leaf.values)
  unfolding Put
  grown_leaf-Put fresh lo hi leaf l h n two = elim (Bool-cases (leb order (length leaf.keys))) [
    | inl e ↦ rw e (split_leaf-grown o order lo hi leaf fresh l h (ground arith) two)
    | inr e ↦ rw e (ground arith, refl)
  ]

  pub insert_leaf-Put :
      (fresh : ℕ) (lo hi : Option K) (key : K) (v : RowLocation) (leaf : BTreeLeaf K)
      → well_formed order_of order 0 lo hi (leaf_node leaf) ≡ true
      → over order_of lo key ≡ true
      → under order_of hi key ≡ true
      → 2 ≤ order
      → Put 0 lo hi
          (insert_leaf order_of order fresh key v leaf)
          (put order_of key v (zip leaf.keys leaf.values))
  unfolding insert_leaf Put
  insert_leaf-Put fresh lo hi key v leaf h l u two =
      let pos = place o key leaf.keys in
      let lengths : length leaf.keys ≡ length leaf.values = ground arith in
      let sorted : ascending order_of leaf.keys ≡ true = ground arith in
      let within : inside order_of lo hi leaf.keys ≡ true = ground arith in
      let few : length leaf.keys < order = ground arith in
      let more = length-insert_at pos key leaf.keys in
      rw (find_index-place o leaf.keys key sorted)
        (elim (Bool-cases (holds_key order_of (get_elem? leaf.keys pos) key)) [
          | inl e ↦ rw e (
            ground (arith, length-push_at pos v leaf.values),
            zip-push_at o key v leaf.keys leaf.values lengths e,
          )
          | inr e ↦
              rw (e, sym (zip-insert_at o key v leaf.keys leaf.values lengths e))
                (grown_leaf-Put fresh lo hi
                  (record leaf {
                    keys = insert_at pos key leaf.keys;
                    values = insert_at pos (v ∷ []) leaf.values;
                  })
                  (more ∙ ap suc lengths ∙ sym (length-insert_at pos (v ∷ []) leaf.values))
                  (both (inside-insert_at o pos lo hi key leaf.keys within l u)
                    (ascending-insert_at o key leaf.keys sorted e))
                  (omega arith) two)
        ])
