-- ===== src/Storage/BTree/Scan.antt =====
-- What the loops of `range` in src/storage/btree.ts yield.
use query_engine.Prelude.{
  ℕ, zero, suc, ◌<◌, ◌≡◌, refl, sym, ap, ◌∙◌, Bool, true, false, not, ◌&&◌, ◌||◌, Option, none,
  some, List, [], ◌∷◌, ◌++◌, length, if◌then◌else◌, arith,
}
use mathlib.Core.List.{append-nil, append_assoc}
use query_engine.Storage.BTree.{
  KeyOrder, is_equal, is_greater, RowLocation, BTreeLeaf, BTreeNode, leaf_node, inner_node,
  BTreeNodes, no_nodes, node_then, drop,
}
use query_engine.Storage.BTree.Keys.{IsOrder}
use query_engine.Storage.BTree.Entries.{Entries, zip, entry_keys, all_above, ascending}
use query_engine.Storage.BTree.Formed.{collect, collect_all, leaf_entries}
use query_engine.Storage.BTree.Range.{one_leaf, past, scan_leaf, range_loop}
use query_engine.Storage.BTree.Links.{Resolves}

-- The entries of leaves
abbrev pub flat : {K : Type 0} → List (BTreeLeaf K) → Entries K
flat [] = []
flat (leaf ∷ leaves) = leaf_entries leaf ++ flat leaves

pub flat-append : {K : Type 0} (xs ys : List (BTreeLeaf K)) → flat (xs ++ ys) ≡ flat xs ++ flat ys
flat-append [] ys = refl
flat-append (x ∷ xs) ys =
    ap (λ es. leaf_entries x ++ es) (flat-append xs ys)
    ∙ sym (append_assoc (leaf_entries x) (flat xs) (flat ys))

mutual
  pub flat-leaves :
      {K : Type 0} (n : BTreeNode K) → flat (collect one_leaf n) ≡ collect leaf_entries n
  flat-leaves (leaf_node leaf) = append-nil (leaf_entries leaf)
  flat-leaves (inner_node ks ns) = flat-all_leaves ns

  pub flat-all_leaves :
      {K : Type 0} (ns : BTreeNodes K)
      → flat (collect_all one_leaf ns) ≡ collect_all leaf_entries ns
  flat-all_leaves no_nodes = refl
  flat-all_leaves (node_then n ns) =
      flat-append (collect one_leaf n) (collect_all one_leaf ns)
      ∙ ap (λ es. es ++ flat (collect_all one_leaf ns)) (flat-leaves n)
      ∙ ap (λ es. collect leaf_entries n ++ es) (flat-all_leaves ns)

same_either : {A : Type 0} (b : Bool) (x : A) → (if b then x else x) ≡ x
same_either true x = refl
same_either false x = refl

module _ {K : Type 0} (order_of : K → K → KeyOrder) where
  -- A key at the lower end or past it
  abbrev pub at_least : Option K → Bool → K → Bool
  at_least none low_inclusive k = true
  at_least (some low) low_inclusive k =
      is_greater (order_of k low) || (is_equal (order_of k low) && low_inclusive)

  -- The locations of the keys between two ends
  abbrev pub selected : Option K → Option K → Bool → Bool → Entries K → List RowLocation
  selected low high low_inclusive high_inclusive [] = []
  selected low high low_inclusive high_inclusive (e ∷ rest) =
      let more = selected low high low_inclusive high_inclusive rest in
      if at_least low low_inclusive (e.0) && not (past order_of high high_inclusive (e.0))
      then e.1 ++ more
      else more

  scan_leaf-append :
      (high : Option K) (inc : Bool) (a b : Entries K)
      → (scan_leaf order_of high inc (a ++ b)).0 ≡ (
          if (scan_leaf order_of high inc a).1
          then (scan_leaf order_of high inc a).0
          else (scan_leaf order_of high inc a).0 ++ (scan_leaf order_of high inc b).0)
  scan_leaf-append high inc [] b = refl
  scan_leaf-append high inc (e ∷ a) b = ground (
    arith,
    scan_leaf-append high inc a b,
    append_assoc (e.1) ((scan_leaf order_of high inc a).0) ((scan_leaf order_of high inc b).0),
  )

  -- The walk from a leaf scans the entries of the leaves from there on.
  pub range_loop-scan_leaf :
      (high : Option K) (inc : Bool) (all : List (BTreeLeaf K)) (fuel : ℕ) (leaf : BTreeLeaf K)
      (rest : List (BTreeLeaf K)) (i : ℕ)
      → Resolves all (leaf ∷ rest)
      → length rest < fuel
      → range_loop order_of high inc all fuel (some leaf) i
        ≡ (scan_leaf order_of high inc (zip (drop i leaf.keys) (drop i leaf.values) ++ flat rest)).0
  unfolding range_loop
  range_loop-scan_leaf high inc all zero leaf rest i r h = absurd (omega arith)
  range_loop-scan_leaf high inc all (suc fuel) leaf [] i r h =
      let here = zip (drop i leaf.keys) (drop i leaf.values) in
      rw (r.0, append-nil here, append-nil ((scan_leaf order_of high inc here).0))
        (same_either ((scan_leaf order_of high inc here).1) ((scan_leaf order_of high inc here).0))
  range_loop-scan_leaf high inc all (suc fuel) leaf (next ∷ rest) i r h =
      let here = zip (drop i leaf.keys) (drop i leaf.values) in
      rw
        (
          r.0,
          range_loop-scan_leaf high inc all fuel next rest 0 (r.1) (omega arith),
          scan_leaf-append high inc here (leaf_entries next ++ flat rest),
        )
        refl

module _ {K : Type 0} {order_of : K → K → KeyOrder} (o : IsOrder order_of) where
  past-none :
      (high : Option K) (inc : Bool) (k : K) (b : Entries K)
      → past order_of high inc k ≡ true
      → all_above order_of k (entry_keys b) ≡ true
      → selected order_of none high true inc b ≡ []
  past-none high inc k [] p h = refl
  past-none none inc k (e ∷ b) p h = cc p
  past-none (some m) inc k (e ∷ b) p h = ground (
    arith,
    past-none (some m) inc k b,
    o.flips k (e.0),
    o.flips (e.0) m,
    o.flips k m,
    o.less_trans m k (e.0),
    o.equal_same k m (e.0),
    o.flips m (e.0),
  )

  pub scan_leaf-selected :
      (high : Option K) (inc : Bool) (b : Entries K)
      → ascending order_of (entry_keys b) ≡ true
      → (scan_leaf order_of high inc b).0 ≡ selected order_of none high true inc b
  scan_leaf-selected high inc [] h = refl
  scan_leaf-selected high inc (e ∷ b) h =
      ground (arith, scan_leaf-selected high inc b, past-none high inc (e.0) b)
