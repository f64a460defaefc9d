-- ===== src/Storage/BTree/Formed.antt =====
-- When a tree of src/storage/btree.ts is well-formed, and the entries that it stands for.
use query_engine.Prelude.{
  ℕ, zero, suc, ◌≡◌, refl, ap, Bool, true, false, ◌&&◌, Option, some, List, [], ◌∷◌, ◌++◌, length,
  ltb, ◌==◌, arith,
}
use mathlib.Core.List.{append-nil}
use query_engine.Storage.BTree.{
  BTreeLeaf, KeyOrder, BTreeNode, leaf_node, inner_node, BTreeNodes, no_nodes, node_then,
}
use query_engine.Storage.BTree.Keys.{IsOrder}
use query_engine.Storage.BTree.Entries.{Entries, zip, entry_keys, beyond, under, inside, ascending}
use query_engine.Storage.BTree.Put.{entry_keys-zip}
use query_engine.Storage.BTree.Cut.{inside-append, ascending-append}

-- What the leaves hold, in the order of the tree
abbrev mutual
  pub collect : {K A : Type 0} → (BTreeLeaf K → List A) → BTreeNode K → List A
  collect of_leaf (leaf_node leaf) = of_leaf leaf
  collect of_leaf (inner_node ks children) = collect_all of_leaf children

  pub collect_all : {K A : Type 0} → (BTreeLeaf K → List A) → BTreeNodes K → List A
  collect_all of_leaf no_nodes = []
  collect_all of_leaf (node_then n ns) = collect of_leaf n ++ collect_all of_leaf ns

abbrev pub leaf_entries : {K : Type 0} → BTreeLeaf K → Entries K
leaf_entries leaf = zip leaf.keys leaf.values

abbrev pub entries : {K : Type 0} → BTreeNode K → Entries K
entries n = collect leaf_entries n

abbrev pub all_entries : {K : Type 0} → BTreeNodes K → Entries K
all_entries ns = collect_all leaf_entries ns

-- A leaf at depth 0 has as many values as keys, ascending and between the ends. The separators of an inner
-- node stand between its children. Every node has fewer than `order` keys.
abbrev mutual
  pub well_formed :
      {K : Type 0} → (K → K → KeyOrder) → ℕ → ℕ → Option K → Option K → BTreeNode K → Bool
  well_formed order_of order zero lo hi (leaf_node leaf) =
      (length leaf.keys == length leaf.values)
      && (ltb (length leaf.keys) order
          && (inside order_of lo hi leaf.keys && ascending order_of leaf.keys))
  well_formed order_of order (suc d) lo hi (leaf_node leaf) = false
  well_formed order_of order zero lo hi (inner_node ks children) = false
  well_formed order_of order (suc d) lo hi (inner_node ks children) =
      ltb (length ks) order && well_separated order_of order d lo hi ks children

  pub well_separated :
      {K : Type 0} → (K → K → KeyOrder) → ℕ → ℕ → Option K → Option K → List K → BTreeNodes K → Bool
  well_separated order_of order d lo hi [] no_nodes = false
  well_separated order_of order d lo hi (s ∷ ks) no_nodes = false
  well_separated order_of order d lo hi [] (node_then n no_nodes) =
      well_formed order_of order d lo hi n
  well_separated order_of order d lo hi [] (node_then n (node_then m ms)) = false
  well_separated order_of order d lo hi (s ∷ ks) (node_then n ns) =
      beyond order_of lo s
      && (under order_of hi s
          && (well_formed order_of order d lo (some s) n
              && well_separated order_of order d (some s) hi ks ns))

pub entry_keys-append :
    {K : Type 0} (a b : Entries K) → entry_keys (a ++ b) ≡ entry_keys a ++ entry_keys b
entry_keys-append [] b = refl
entry_keys-append (e ∷ a) b = ap (λ ks. e.0 ∷ ks) (entry_keys-append a b)

module _ {K : Type 0} {order_of : K → K → KeyOrder} (o : IsOrder order_of) (order : ℕ) where
  -- The keys of a list are sorted between two ends.
  abbrev pub sorted_between : Option K → Option K → List K → Bool
  sorted_between lo hi ks = inside order_of lo hi ks && ascending order_of ks

  sorted_between-append :
      (lo hi : Option K) (s : K) (a b : Entries K)
      → sorted_between lo (some s) (entry_keys a) ≡ true
      → sorted_between (some s) hi (entry_keys b) ≡ true
      → beyond order_of lo s ≡ true
      → under order_of hi s ≡ true
      → sorted_between lo hi (entry_keys (a ++ b)) ≡ true
  sorted_between-append lo hi s a b h e l u = rw (entry_keys-append a b) (
      ground (
        arith,
        inside-append o lo hi s (entry_keys a) (entry_keys b),
        ascending-append o lo hi s (entry_keys a) (entry_keys b),
      ))

  mutual
    pub entries-sorted :
        (d : ℕ) (lo hi : Option K) (n : BTreeNode K)
        → well_formed order_of order d lo hi n ≡ true
        → sorted_between lo hi (entry_keys (entries n)) ≡ true
    entries-sorted zero lo hi (leaf_node leaf) h =
        rw (entry_keys-zip leaf.keys leaf.values (ground arith)) (ground arith)
    entries-sorted (suc d) lo hi (leaf_node leaf) h = cc h
    entries-sorted zero lo hi (inner_node ks children) h = cc h
    entries-sorted (suc d) lo hi (inner_node ks children) h =
        all_entries-sorted d lo hi ks children (ground arith)

    pub all_entries-sorted :
        (d : ℕ) (lo hi : Option K) (ks : List K) (ns : BTreeNodes K)
        → well_separated order_of order d lo hi ks ns ≡ true
        → sorted_between lo hi (entry_keys (all_entries ns)) ≡ true
    all_entries-sorted d lo hi [] no_nodes h = refl
    all_entries-sorted d lo hi (s ∷ ks) no_nodes h = refl
    all_entries-sorted d lo hi [] (node_then n no_nodes) h =
        rw (append-nil (entries n)) (entries-sorted d lo hi n h)
    all_entries-sorted d lo hi [] (node_then n (node_then m ms)) h = cc h
    all_entries-sorted d lo hi (s ∷ ks) (node_then n ns) h =
        sorted_between-append lo hi s (entries n) (all_entries ns)
          (entries-sorted d lo (some s) n (ground arith))
          (all_entries-sorted d (some s) hi ks ns (ground arith)) (ground arith) (ground arith)
