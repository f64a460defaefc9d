-- ===== src/Storage/BTree/Insert.antt =====
-- `_insertInternal` of src/storage/btree.ts.
use query_engine.Prelude.{
  ℕ, zero, suc, ◌+◌, ◌≤◌, ◌<◌, ◌≡◌, refl, sym, ap, ◌∙◌, true, false, not, Option, none, some, List,
  [], ◌∷◌, ◌++◌, length, leb, arith, Bool-cases, inl, inr,
}
use mathlib.Core.List.{append-nil}
use query_engine.Storage.BTree.{
  KeyOrder, RowLocation, BTreeLeaf, BTreeNode, leaf_node, inner_node, BTreeNodes, no_nodes,
  node_then, is_greater, SplitResult, insert_at, insert_node_at,
}
use query_engine.Storage.BTree.Keys.{IsOrder}
use query_engine.Storage.BTree.Entries.{
  Entries, less, over, under, ascending, place, find_index-place, put,
}
use query_engine.Storage.BTree.Operations.{
  insert_inner, insert_internal, insert_child, replace_head, replace_tail,
}
use query_engine.Storage.BTree.Splice.{length-insert_at}
use query_engine.Storage.BTree.Cut.{all_above-less}
use query_engine.Storage.BTree.Put.{put-append_left, put-append_right}
use query_engine.Storage.BTree.Formed.{
  entries, all_entries, leaf_entries, well_formed, well_separated, entries-sorted,
  all_entries-sorted,
}
use query_engine.Storage.BTree.Search.{child_place, find_child_index-place}
use query_engine.Storage.BTree.Grown.{
  result_of, grown, grown_children, child_of, replace_head-last, replace_head-collect_last,
  replace_head-grown, replace_head-collect, replace_tail-grown, replace_tail-collect,
}
use query_engine.Storage.BTree.Split.{split_internal-grown, both, left_holds, less-ltb}
use query_engine.Storage.BTree.InsertLeaf.{Put, insert_leaf-Put}

module _ {K : Type 0} {order_of : K → K → KeyOrder} (o : IsOrder order_of) (order : ℕ) where
  pub ascending-separators :
      (d : ℕ) (lo hi : Option K) (ks : List K) (ns : BTreeNodes K)
      → well_separated order_of order d lo hi ks ns ≡ true
      → ascending order_of ks ≡ true
  ascending-separators d lo hi [] ns h = refl
  ascending-separators d lo hi (s ∷ ks) no_nodes h = cc h
  ascending-separators d lo hi (s ∷ []) (node_then n ns) h = refl
  ascending-separators d lo hi (s ∷ t ∷ ks) (node_then n no_nodes) h = absurd (ground arith)
  ascending-separators d lo hi (s ∷ t ∷ ks) (node_then n (node_then m ms)) h =
      ground (
        arith,
        ascending-separators d (some s) hi (t ∷ ks) (node_then m ms),
        all_above-less o s t ks,
      )

  pub separated-first :
      (d : ℕ) (lo hi : Option K) (s : K) (ks : List K) (n : BTreeNode K) (ns : BTreeNodes K)
      → well_separated order_of order d lo hi (s ∷ ks) (node_then n ns) ≡ true
      → well_formed order_of order d lo (some s) n ≡ true
  separated-first d lo hi s ks n ns h = ground arith

  pub separated-rest :
      (d : ℕ) (lo hi : Option K) (s : K) (ks : List K) (n : BTreeNode K) (ns : BTreeNodes K)
      → well_separated order_of order d lo hi (s ∷ ks) (node_then n ns) ≡ true
      → well_separated order_of order d (some s) hi ks ns ≡ true
  separated-rest d lo hi s ks n ns h = ground arith

  -- `_insertInternal` past its call on the child
  pub insert_inner-grown :
      {A : Type 0} (of_leaf : BTreeLeaf K → List A) (d : ℕ) (lo hi : Option K) (ks : List K)
      (r : Option (BTreeNodes K × Option (SplitResult K)))
      → ascending order_of ks ≡ true
      → grown_children o order d lo hi ks r ≡ true
      → length ks < order
      → 2 ≤ order
      → (grown o order (suc d) lo hi (insert_inner order_of order ks r) ≡ true)
        × (result_of of_leaf (insert_inner order_of order ks r) ≡ child_of o order of_leaf ks r)
  unfolding insert_inner
  insert_inner-grown of_leaf d lo hi ks none a h n two = cc h
  insert_inner-grown of_leaf d lo hi ks (some (ns, none)) a h n two = (ground arith, refl)
  insert_inner-grown of_leaf d lo hi ks (some (ns, some result)) a h n two =
      let pos = place o result.key ks in
      let next : pos + 1 ≡ suc pos = omega arith in
      let more = insert_at pos result.key ks in
      let count = length-insert_at pos result.key ks in
      let nodes = insert_node_at (suc pos) result.right ns in
      let apart : well_separated order_of order d lo hi more nodes ≡ true = ground arith in
      rw (find_index-place o ks result.key a, next)
        (elim (Bool-cases (leb order (length more))) [
          | inl e ↦
              rw e
                (split_internal-grown o order of_leaf d lo hi more nodes apart (ground arith) two)
          | inr e ↦ rw e (both (less-ltb {m = length more} {n = order} (ground arith)) apart, refl)
        ])

  unfoldable pub PutChildren :
      ℕ
      → Option K
      → Option K
      → List K
      → Option (BTreeNodes K × Option (SplitResult K))
      → Entries K
      → Type 0
  PutChildren d lo hi ks r e =
      (grown_children o order d lo hi ks r ≡ true) × (child_of o order leaf_entries ks r ≡ e)

  replace_head-PutChildren :
      (d : ℕ) (lo hi : Option K) (s : K) (ks : List K) (n : BTreeNode K) (ns : BTreeNodes K)
      (key : K) (v : RowLocation) (r : Option (BTreeNode K × Option (SplitResult K)))
      → well_separated order_of order d lo hi (s ∷ ks) (node_then n ns) ≡ true
      → less order_of key s ≡ true
      → Put o order d lo (some s) r (put order_of key v (entries n))
      → PutChildren d lo hi
          (s ∷ ks)
          (replace_head r ns)
          (put order_of key v (entries n ++ all_entries ns))
  unfolding Put PutChildren
  replace_head-PutChildren d lo hi s ks n ns key v r h l p = (
    replace_head-grown o order d lo hi s ks n ns r h (p.0),
    replace_head-collect o order leaf_entries d lo s ks ns r (p.0)
        ∙ ap (λ es. es ++ all_entries ns) (p.1)
        ∙ sym (
            put-append_left o s key hi v (entries n) (all_entries ns)
              (left_holds _ _ (
                all_entries-sorted o order d (some s) hi ks ns
                  (separated-rest d lo hi s ks n ns h)))
              l),
  )

  replace_tail-PutChildren :
      (d : ℕ) (lo hi : Option K) (s : K) (ks : List K) (n : BTreeNode K) (ns : BTreeNodes K)
      (key : K) (v : RowLocation) (r : Option (BTreeNodes K × Option (SplitResult K)))
      → well_separated order_of order d lo hi (s ∷ ks) (node_then n ns) ≡ true
      → less order_of key s ≡ false
      → PutChildren d (some s) hi ks r (put order_of key v (all_entries ns))
      → PutChildren d lo hi
          (s ∷ ks)
          (replace_tail n r)
          (put order_of key v (entries n ++ all_entries ns))
  unfolding Put PutChildren
  replace_tail-PutChildren d lo hi s ks n ns key v r h l p = (
    replace_tail-grown o order d lo hi s ks n ns r h (p.0),
    replace_tail-collect o order leaf_entries d hi s ks n r (p.0)
        ∙ ap (λ es. entries n ++ es) (p.1)
        ∙ sym (
            put-append_right o lo s key v (entries n) (all_entries ns)
              (left_holds _ _
                (entries-sorted o order d lo (some s) n (separated-first d lo hi s ks n ns h)))
              l),
  )

  mutual
    unfolding insert_internal Put PutChildren

    pub insert_internal-Put :
        (fresh d : ℕ) (lo hi : Option K) (key : K) (v : RowLocation) (n : BTreeNode K)
        → well_formed order_of order d lo hi n ≡ true
        → over order_of lo key ≡ true
        → under order_of hi key ≡ true
        → 2 ≤ order
        → Put o order d lo hi
            (insert_internal order_of order fresh key v n)
            (put order_of key v (entries n))
    insert_internal-Put fresh zero lo hi key v (leaf_node leaf) h l u two =
        insert_leaf-Put o order fresh lo hi key v leaf h l u two
    insert_internal-Put fresh (suc d) lo hi key v (leaf_node leaf) h l u two = cc h
    insert_internal-Put fresh zero lo hi key v (inner_node ks ns) h l u two = cc h
    insert_internal-Put fresh (suc d) lo hi key v (inner_node ks ns) h l u two =
        let apart : well_separated order_of order d lo hi ks ns ≡ true = ground arith in
        let r = insert_child order_of order fresh key v ns (child_place o order key ks) in
        let p = insert_child-PutChildren fresh d lo hi key v ks ns apart l u two in
        let few : length ks < order = ground arith in
        rw (find_child_index-place o order key lo hi d ks ns apart, sym (p.1))
          (insert_inner-grown leaf_entries d lo hi ks r (ascending-separators d lo hi ks ns apart)
            (p.0) few two)

    pub insert_child-PutChildren :
        (fresh d : ℕ) (lo hi : Option K) (key : K) (v : RowLocation) (ks : List K)
        (ns : BTreeNodes K)
        → well_separated order_of order d lo hi ks ns ≡ true
        → over order_of lo key ≡ true
        → under order_of hi key ≡ true
        → 2 ≤ order
        → PutChildren d lo hi ks
            (insert_child order_of order fresh key v ns (child_place o order key ks))
            (put order_of key v (all_entries ns))
    insert_child-PutChildren fresh d lo hi key v [] no_nodes h l u two = cc h
    insert_child-PutChildren fresh d lo hi key v (s ∷ ks) no_nodes h l u two = cc h
    insert_child-PutChildren fresh d lo hi key v [] (node_then n no_nodes) h l u two =
        let r = insert_internal order_of order fresh key v n in
        let p = insert_internal-Put fresh d lo hi key v n h l u two in
        (
          replace_head-last o order d lo hi r (p.0),
          replace_head-collect_last o order leaf_entries r
              ∙ p.1
              ∙ ap (λ es. put order_of key v es) (sym (append-nil (entries n))),
        )
    insert_child-PutChildren fresh d lo hi key v [] (node_then n (node_then m ms)) h l u two = cc h
    insert_child-PutChildren fresh d lo hi key v (s ∷ ks) (node_then n ns) h l u two =
        elim (Bool-cases (is_greater (order_of s key))) [
          | inl e ↦
              let before : less order_of key s ≡ true = ground (arith, o.flips s key) in
              rw e (
                replace_head-PutChildren d lo hi s ks n ns key v
                  (insert_internal order_of order fresh key v n) h before
                  (insert_internal-Put fresh d lo (some s) key v n
                    (separated-first d lo hi s ks n ns h) l before two))
          | inr e ↦
              let after : less order_of key s ≡ false = ground (arith, o.flips s key) in
              rw e (
                replace_tail-PutChildren d lo hi s ks n ns key v
                  (insert_child order_of order fresh key v ns (child_place o order key ks)) h after
                  (insert_child-PutChildren fresh d (some s) hi key v ks ns
                    (separated-rest d lo hi s ks n ns h) (ap not after) u two))
        ]
