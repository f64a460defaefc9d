-- ===== src/Storage/BTree/Start.antt =====
-- Where `range` of src/storage/btree.ts starts.
use query_engine.Prelude.{
  ℕ, zero, suc, ◌≡◌, refl, sym, ap, ◌∙◌, Bool, true, false, ◌&&◌, Option, none, some, List, [], ◌∷◌,
  ◌++◌, length, arith, Bool-cases, inl, inr,
}
use mathlib.Core.List.{append-nil, append_assoc}
use query_engine.Storage.BTree.{
  KeyOrder, is_greater, BTreeLeaf, BTreeNode, leaf_node, inner_node, BTreeNodes, no_nodes,
  node_then,
}
use query_engine.Storage.BTree.Keys.{IsOrder}
use query_engine.Storage.BTree.Entries.{
  Entries, entry_keys, less, inside, all_above, ascending, less_over,
}
use query_engine.Storage.BTree.Operations.{leaf_for, leaf_for_child}
use query_engine.Storage.BTree.Formed.{
  collect, collect_all, leaf_entries, well_formed, well_separated, entries-sorted,
  all_entries-sorted,
}
use query_engine.Storage.BTree.Search.{child_place, find_child_index-place}
use query_engine.Storage.BTree.Cut.{inside-all_above}
use query_engine.Storage.BTree.Split.{left_holds}
use query_engine.Storage.BTree.Range.{
  one_leaf, node_leaves, start_leaf, first_leaf, first_leaf_child,
}
use query_engine.Storage.BTree.Scan.{flat, flat-append, flat-leaves, flat-all_leaves}

module _ {K : Type 0} {order_of : K → K → KeyOrder} (o : IsOrder order_of) (order : ℕ) where
  -- Every key is before the lower end, or past it.
  abbrev pub all_before : Option K → Entries K → Bool
  all_before low [] = true
  all_before none (e ∷ b) = false
  all_before (some low) (e ∷ b) = less order_of (e.0) low && all_before (some low) b

  abbrev pub all_past : Option K → Entries K → Bool
  all_past none b = true
  all_past (some low) b = all_above order_of low (entry_keys b)

  -- The leaf found, among the leaves of a node
  pub record Start (low : Option K) (leaves : List (BTreeLeaf K)) (found : Option (BTreeLeaf K))
      : Type 0 where
    pub before : List (BTreeLeaf K)
    pub leaf : BTreeLeaf K
    pub after : List (BTreeLeaf K)
    pub found_leaf : found ≡ some leaf
    pub places : leaves ≡ before ++ leaf ∷ after
    pub fits : (length leaf.keys ≡ length leaf.values) × (ascending order_of leaf.keys ≡ true)
    pub left_out : all_before low (flat before) ≡ true
    pub follows : all_past low (flat after) ≡ true

  all_before-append :
      (low : Option K) (a b : Entries K)
      → all_before low a ≡ true
      → all_before low b ≡ true
      → all_before low (a ++ b) ≡ true
  all_before-append low [] b h l = l
  all_before-append none (e ∷ a) b h l = cc h
  all_before-append (some m) (e ∷ a) b h l = ground (arith, all_before-append (some m) a b)

  all_past-append :
      (low : Option K) (a b : Entries K)
      → all_past low a ≡ true
      → all_past low b ≡ true
      → all_past low (a ++ b) ≡ true
  all_past-append none a b h l = refl
  all_past-append (some m) [] b h l = l
  all_past-append (some m) (e ∷ a) b h l = ground (arith, all_past-append (some m) a b)

  -- More leaves before the lower end, or past it
  pub Start-before :
      (low : Option K) (zs leaves : List (BTreeLeaf K)) (found : Option (BTreeLeaf K))
      → all_before low (flat zs) ≡ true
      → Start low leaves found
      → Start low (zs ++ leaves) found
  Start-before low zs leaves found h s = record {
    before = zs ++ s.before;
    leaf = s.leaf;
    after = s.after;
    found_leaf = s.found_leaf;
    places = ap (λ xs. zs ++ xs) s.places ∙ sym (append_assoc zs s.before (s.leaf ∷ s.after));
    fits = s.fits;
    left_out =
        rw (flat-append zs s.before) (all_before-append low (flat zs) (flat s.before) h s.left_out);
    follows = s.follows;
  }

  pub Start-after :
      (low : Option K) (zs leaves : List (BTreeLeaf K)) (found : Option (BTreeLeaf K))
      → all_past low (flat zs) ≡ true
      → Start low leaves found
      → Start low (leaves ++ zs) found
  Start-after low zs leaves found h s = record {
    before = s.before;
    leaf = s.leaf;
    after = s.after ++ zs;
    found_leaf = s.found_leaf;
    places = ap (λ xs. xs ++ zs) s.places ∙ append_assoc s.before (s.leaf ∷ s.after) zs;
    fits = s.fits;
    left_out = s.left_out;
    follows =
        rw (flat-append s.after zs) (all_past-append low (flat s.after) (flat zs) s.follows h);
  }

  nothing_past : (low : Option K) → all_past low [] ≡ true
  nothing_past none = refl
  nothing_past (some low) = refl

  Start-leaf :
      (low lo hi : Option K) (leaf : BTreeLeaf K)
      → well_formed order_of order 0 lo hi (leaf_node leaf) ≡ true
      → Start low (leaf ∷ []) (some leaf)
  Start-leaf low lo hi leaf h = record {
    before = [];
    leaf = leaf;
    after = [];
    found_leaf = refl;
    places = refl;
    fits = (ground arith, ground arith);
    left_out = refl;
    follows = nothing_past low;
  }

  inside-all_before :
      (lo : Option K) (s low : K) (b : Entries K)
      → inside order_of lo (some s) (entry_keys b) ≡ true
      → less order_of low s ≡ false
      → all_before (some low) b ≡ true
  inside-all_before lo s low [] h l = refl
  inside-all_before lo s low (e ∷ b) h l =
      ground (arith, inside-all_before lo s low b, less_over o (e.0) s low)

  leaves-all_before :
      (d : ℕ) (lo : Option K) (s low : K) (n : BTreeNode K)
      → well_formed order_of order d lo (some s) n ≡ true
      → less order_of low s ≡ false
      → all_before (some low) (flat (node_leaves n)) ≡ true
  leaves-all_before d lo s low n h l = rw (flat-leaves n) (
      inside-all_before lo s low (collect leaf_entries n)
        (left_holds _ _ (entries-sorted o order d lo (some s) n h)) l)

  leaves-all_past :
      (d : ℕ) (hi : Option K) (s low : K) (ks : List K) (ns : BTreeNodes K)
      → well_separated order_of order d (some s) hi ks ns ≡ true
      → less order_of low s ≡ true
      → all_past (some low) (flat (collect_all one_leaf ns)) ≡ true
  leaves-all_past d hi s low ks ns h l = rw (flat-all_leaves ns) (
      inside-all_above o low s hi (entry_keys (collect_all leaf_entries ns))
        (left_holds _ _ (all_entries-sorted o order d (some s) hi ks ns h)) l)

  mutual
    unfolding leaf_for

    pub leaf_for-Start :
        (low : K) (d : ℕ) (lo hi : Option K) (n : BTreeNode K)
        → well_formed order_of order d lo hi n ≡ true
        → Start (some low) (node_leaves n) (leaf_for order_of low n)
    leaf_for-Start low zero lo hi (leaf_node leaf) h = Start-leaf (some low) lo hi leaf h
    leaf_for-Start low (suc d) lo hi (leaf_node leaf) h = cc h
    leaf_for-Start low zero lo hi (inner_node ks ns) h = cc h
    leaf_for-Start low (suc d) lo hi (inner_node ks ns) h =
        let apart : well_separated order_of order d lo hi ks ns ≡ true = ground arith in
        rw (find_child_index-place o order low lo hi d ks ns apart)
          (leaf_for_child-Start low d lo hi ks ns apart)

    leaf_for_child-Start :
        (low : K) (d : ℕ) (lo hi : Option K) (ks : List K) (ns : BTreeNodes K)
        → well_separated order_of order d lo hi ks ns ≡ true
        → Start
            (some low)
            (collect_all one_leaf ns)
            (leaf_for_child order_of low ns (child_place o order low ks))
    leaf_for_child-Start low d lo hi [] no_nodes h = cc h
    leaf_for_child-Start low d lo hi (s ∷ ks) no_nodes h = cc h
    leaf_for_child-Start low d lo hi [] (node_then n no_nodes) h =
        rw (append-nil (node_leaves n)) (leaf_for-Start low d lo hi n h)
    leaf_for_child-Start low d lo hi [] (node_then n (node_then m ms)) h = cc h
    leaf_for_child-Start low d lo hi (s ∷ ks) (node_then n ns) h =
        let formed : well_formed order_of order d lo (some s) n ≡ true = ground arith in
        let apart : well_separated order_of order d (some s) hi ks ns ≡ true = ground arith in
        elim (Bool-cases (is_greater (order_of s low))) [
          | inl e ↦ rw e (
              Start-after (some low) (collect_all one_leaf ns) (node_leaves n)
                (leaf_for order_of low n)
                (leaves-all_past d hi s low ks ns apart (ground (arith, o.flips s low)))
                (leaf_for-Start low d lo (some s) n formed))
          | inr e ↦ rw e (
              Start-before (some low) (node_leaves n) (collect_all one_leaf ns)
                (leaf_for_child order_of low ns (child_place o order low ks))
                (leaves-all_before d lo s low n formed (ground (arith, o.flips s low)))
                (leaf_for_child-Start low d (some s) hi ks ns apart))
        ]

  mutual
    unfolding first_leaf

    first_leaf-Start :
        (d : ℕ) (lo hi : Option K) (n : BTreeNode K)
        → well_formed order_of order d lo hi n ≡ true
        → Start none (node_leaves n) (first_leaf n)
    first_leaf-Start zero lo hi (leaf_node leaf) h = Start-leaf none lo hi leaf h
    first_leaf-Start (suc d) lo hi (leaf_node leaf) h = cc h
    first_leaf-Start zero lo hi (inner_node ks ns) h = cc h
    first_leaf-Start (suc d) lo hi (inner_node ks ns) h =
        first_leaf_child-Start d lo hi ks ns (ground arith)

    first_leaf_child-Start :
        (d : ℕ) (lo hi : Option K) (ks : List K) (ns : BTreeNodes K)
        → well_separated order_of order d lo hi ks ns ≡ true
        → Start none (collect_all one_leaf ns) (first_leaf_child ns)
    first_leaf_child-Start d lo hi [] no_nodes h = cc h
    first_leaf_child-Start d lo hi (s ∷ ks) no_nodes h = cc h
    first_leaf_child-Start d lo hi [] (node_then n no_nodes) h =
        rw (append-nil (node_leaves n)) (first_leaf-Start d lo hi n h)
    first_leaf_child-Start d lo hi [] (node_then n (node_then m ms)) h = cc h
    first_leaf_child-Start d lo hi (s ∷ ks) (node_then n ns) h =
        Start-after none (collect_all one_leaf ns) (node_leaves n) (first_leaf n) refl
          (first_leaf-Start d lo (some s) n (ground arith))

  pub start_leaf-Start :
      (low : Option K) (d : ℕ) (lo hi : Option K) (n : BTreeNode K)
      → well_formed order_of order d lo hi n ≡ true
      → Start low (node_leaves n) (start_leaf order_of low n)
  unfolding start_leaf
  start_leaf-Start none d lo hi n h = first_leaf-Start d lo hi n h
  start_leaf-Start (some low) d lo hi n h = leaf_for-Start low d lo hi n h
