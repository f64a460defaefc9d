-- ===== src/Storage/BTree/Grown.antt =====
-- What an insertion of src/storage/btree.ts leaves: a node, and the node that is split off, if any.
use query_engine.Prelude.{
  ℕ, suc, ◌≡◌, refl, ap, Bool, true, false, ◌&&◌, Option, none, some, List, [], ◌∷◌, ◌++◌, arith,
}
use mathlib.Core.List.{append-nil, append_assoc}
use query_engine.Storage.BTree.{
  BTreeLeaf, KeyOrder, BTreeNode, BTreeNodes, no_nodes, node_then, SplitResult, insert_at,
  insert_node_at,
}
use query_engine.Storage.BTree.Keys.{IsOrder}
use query_engine.Storage.BTree.Entries.{less, beyond, under, place}
use query_engine.Storage.BTree.Operations.{replace_head, replace_tail}
use query_engine.Storage.BTree.Formed.{collect, collect_all, well_formed, well_separated}

abbrev pub result_of :
    {K A : Type 0} → (BTreeLeaf K → List A) → Option (BTreeNode K × Option (SplitResult K)) → List A
result_of of_leaf none = []
result_of of_leaf (some (n, none)) = collect of_leaf n
result_of of_leaf (some (n, some result)) = collect of_leaf n ++ collect of_leaf result.right

module _ {K : Type 0} {order_of : K → K → KeyOrder} (o : IsOrder order_of) (order : ℕ) where
  abbrev pub grown : ℕ → Option K → Option K → Option (BTreeNode K × Option (SplitResult K)) → Bool
  grown d lo hi none = false
  grown d lo hi (some (n, none)) = well_formed order_of order d lo hi n
  grown d lo hi (some (n, some result)) =
      (beyond order_of lo result.key && under order_of hi result.key)
      && (well_formed order_of order d lo (some result.key) n
          && well_formed order_of order d (some result.key) hi result.right)

  abbrev pub grown_children :
      ℕ → Option K → Option K → List K → Option (BTreeNodes K × Option (SplitResult K)) → Bool
  grown_children d lo hi ks none = false
  grown_children d lo hi ks (some (ns, none)) = well_separated order_of order d lo hi ks ns
  grown_children d lo hi ks (some (ns, some result)) =
      let pos = place o result.key ks in
      (beyond order_of lo result.key && under order_of hi result.key)
      && well_separated order_of order d lo hi (insert_at pos result.key ks)
          (insert_node_at (suc pos) result.right ns)

  pub beyond_less :
      (lo : Option K) (s t : K)
      → beyond order_of lo s ≡ true
      → less order_of s t ≡ true
      → beyond order_of lo t ≡ true
  beyond_less none s t h l = refl
  beyond_less (some m) s t h l = o.less_trans m s t h l

  less_under :
      (hi : Option K) (s t : K)
      → under order_of hi t ≡ true
      → less order_of s t ≡ true
      → under order_of hi s ≡ true
  less_under none s t h l = refl
  less_under (some m) s t h l = o.less_trans s t m l h

  pub replace_head-last :
      (d : ℕ) (lo hi : Option K) (r : Option (BTreeNode K × Option (SplitResult K)))
      → grown d lo hi r ≡ true
      → grown_children d lo hi [] (replace_head r no_nodes) ≡ true
  replace_head-last d lo hi none h = cc h
  replace_head-last d lo hi (some (n, none)) h = h
  replace_head-last d lo hi (some (n, some result)) h = ground arith

  pub replace_head-grown :
      (d : ℕ) (lo hi : Option K) (s : K) (ks : List K) (n : BTreeNode K) (ns : BTreeNodes K)
      (r : Option (BTreeNode K × Option (SplitResult K)))
      → well_separated order_of order d lo hi (s ∷ ks) (node_then n ns) ≡ true
      → grown d lo (some s) r ≡ true
      → grown_children d lo hi (s ∷ ks) (replace_head r ns) ≡ true
  replace_head-grown d lo hi s ks n ns none h g = cc g
  replace_head-grown d lo hi s ks n ns (some (m, none)) h g = ground arith
  replace_head-grown d lo hi s ks n ns (some (m, some result)) h g =
      ground (arith, o.flips result.key s, less_under hi result.key s)

  pub replace_tail-grown :
      (d : ℕ) (lo hi : Option K) (s : K) (ks : List K) (n : BTreeNode K) (ns : BTreeNodes K)
      (r : Option (BTreeNodes K × Option (SplitResult K)))
      → well_separated order_of order d lo hi (s ∷ ks) (node_then n ns) ≡ true
      → grown_children d (some s) hi ks r ≡ true
      → grown_children d lo hi (s ∷ ks) (replace_tail n r) ≡ true
  replace_tail-grown d lo hi s ks n ns none h g = cc g
  replace_tail-grown d lo hi s ks n ns (some (ms, none)) h g = ground arith
  replace_tail-grown d lo hi s ks n ns (some (ms, some result)) h g =
      ground (arith, beyond_less lo s result.key)

-- What stands in the leaves after a node is put in place of a child, or beside it
module _ {K A : Type 0} {order_of : K → K → KeyOrder} (o : IsOrder order_of) (order : ℕ)
    (of_leaf : BTreeLeaf K → List A) where
  abbrev pub child_of : List K → Option (BTreeNodes K × Option (SplitResult K)) → List A
  child_of ks none = []
  child_of ks (some (ns, none)) = collect_all of_leaf ns
  child_of ks (some (ns, some result)) =
      collect_all of_leaf (insert_node_at (suc (place o result.key ks)) result.right ns)

  pub replace_head-collect_last :
      (r : Option (BTreeNode K × Option (SplitResult K)))
      → child_of [] (replace_head r no_nodes) ≡ result_of of_leaf r
  replace_head-collect_last none = refl
  replace_head-collect_last (some (n, none)) = append-nil (collect of_leaf n)
  replace_head-collect_last (some (n, some result)) =
      ap (λ es. collect of_leaf n ++ es) (append-nil (collect of_leaf result.right))

  pub replace_head-collect :
      (d : ℕ) (lo : Option K) (s : K) (ks : List K) (ns : BTreeNodes K)
      (r : Option (BTreeNode K × Option (SplitResult K)))
      → grown o order d lo (some s) r ≡ true
      → child_of (s ∷ ks) (replace_head r ns) ≡ result_of of_leaf r ++ collect_all of_leaf ns
  replace_head-collect d lo s ks ns none g = cc g
  replace_head-collect d lo s ks ns (some (m, none)) g = refl
  replace_head-collect d lo s ks ns (some (m, some result)) g = ground (
    arith,
    o.flips result.key s,
    append_assoc (collect of_leaf m) (collect of_leaf result.right) (collect_all of_leaf ns),
  )

  pub replace_tail-collect :
      (d : ℕ) (hi : Option K) (s : K) (ks : List K) (n : BTreeNode K)
      (r : Option (BTreeNodes K × Option (SplitResult K)))
      → grown_children o order d (some s) hi ks r ≡ true
      → child_of (s ∷ ks) (replace_tail n r) ≡ collect of_leaf n ++ child_of ks r
  replace_tail-collect d hi s ks n none g = cc g
  replace_tail-collect d hi s ks n (some (ms, none)) g = refl
  replace_tail-collect d hi s ks n (some (ms, some result)) g = ground arith
