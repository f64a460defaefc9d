-- ===== src/Storage/BTree/Split.antt =====
-- `_splitLeaf` and `_splitInternal` of src/storage/btree.ts.
use query_engine.Prelude.{
  ℕ, zero, suc, ◌+◌, ◌-◌, ◌/◌, ◌≤◌, ◌<◌, ◌≡◌, refl, ap, ◌∙◌, Bool, true, ◌&&◌, Option, some, List,
  [], ◌∷◌, ◌++◌, length, get_elem?, ltb, arith,
}
use mathlib.Core.List.{append_assoc}
use query_engine.Storage.BTree.{
  KeyOrder, BTreeLeaf, inner_node, BTreeNodes, no_nodes, node_then, take, drop, take_nodes,
  drop_nodes,
}
use query_engine.Storage.BTree.Keys.{IsOrder}
use query_engine.Storage.BTree.Entries.{zip, beyond, under}
use query_engine.Storage.BTree.Operations.{split_internal, split_leaf, split_at_key}
use query_engine.Storage.BTree.Splice.{length-take, length-drop, length-cut, zip-cut, first-drop}
use query_engine.Storage.BTree.Cut.{
  inside-take, inside-drop, inside-at, inside-beyond, ascending-take, ascending-drop,
}
use query_engine.Storage.BTree.Formed.{
  collect, collect_all, leaf_entries, well_separated, sorted_between,
}
use query_engine.Storage.BTree.Grown.{result_of, grown, beyond_less}

pub both : {x y : Bool} → x ≡ true → y ≡ true → (x && y) ≡ true
both h e = ground arith

pub left_holds : (x y : Bool) → (x && y) ≡ true → x ≡ true
left_holds x y h = ground arith

pub right_holds : (x y : Bool) → (x && y) ≡ true → y ≡ true
right_holds x y h = ground arith

pub less-ltb : {m n : ℕ} → m < n → ltb m n ≡ true
less-ltb h = ground arith

get_elem?-some :
    {A : Type 0} (xs : List A) (i : ℕ) → i < length xs → (x : A) × (get_elem? xs i ≡ some x)
get_elem?-some [] i h = absurd (omega arith)
get_elem?-some (x ∷ xs) zero h = (x, refl)
get_elem?-some (x ∷ xs) (suc i) h = get_elem?-some xs i (omega arith)

module _ {K : Type 0} {order_of : K → K → KeyOrder} (o : IsOrder order_of) (order : ℕ) where
  split_at_key-grown :
      (lo hi : Option K) (leaf : BTreeLeaf K) (n fresh : ℕ) (s : K)
      → length leaf.keys ≡ length leaf.values
      → sorted_between o order lo hi leaf.keys ≡ true
      → get_elem? leaf.keys (suc n) ≡ some s
      → suc n < order
      → length leaf.keys < suc n + order
      → suc n ≤ length leaf.keys
      → grown o order 0 lo hi (split_at_key leaf (suc n) fresh (some s)) ≡ true
  split_at_key-grown lo hi leaf n fresh s l h e a b c = ground (
    arith,
    length-cut (suc n) leaf.keys leaf.values l,
    length-take (suc n) leaf.keys c,
    length-drop (suc n) leaf.keys c,
    inside-take o lo hi (suc n) s leaf.keys,
    inside-drop o lo hi (suc n) s leaf.keys,
    inside-at o lo hi (suc n) s leaf.keys,
    inside-beyond o lo hi n s leaf.keys,
    ascending-take o (suc n) leaf.keys,
    ascending-drop o (suc n) leaf.keys,
  )

  -- A leaf of `order` keys is split into two leaves.
  pub split_leaf-grown :
      (lo hi : Option K) (leaf : BTreeLeaf K) (fresh : ℕ)
      → length leaf.keys ≡ length leaf.values
      → sorted_between o order lo hi leaf.keys ≡ true
      → length leaf.keys ≡ order
      → 2 ≤ order
      → (grown o order 0 lo hi (split_leaf fresh leaf) ≡ true)
        × (result_of leaf_entries (split_leaf fresh leaf) ≡ zip leaf.keys leaf.values)
  unfolding split_leaf
  split_leaf-grown lo hi leaf fresh l h e two =
      let n = (length leaf.keys + 1) / 2 - 1 in
      let mid : (length leaf.keys + 1) / 2 ≡ suc n = omega arith in
      let found = get_elem?-some leaf.keys (suc n) (omega arith) in
      rw (mid, first-drop (suc n) leaf.keys, found.1)
        (
          split_at_key-grown lo hi leaf n fresh (found.0) l h (found.1) (omega arith) (omega arith)
              (omega arith),
          zip-cut (suc n) leaf.keys leaf.values l,
        )

  -- The two parts at a separator
  well_separated-take :
      (d : ℕ) (lo hi : Option K) (n : ℕ) (s : K) (ks : List K) (ns : BTreeNodes K)
      → well_separated order_of order d lo hi ks ns ≡ true
      → get_elem? ks n ≡ some s
      → ((beyond order_of lo s && under order_of hi s)
          && well_separated order_of order d lo (some s) (take n ks) (take_nodes (suc n) ns))
        ≡ true
  well_separated-take d lo hi n s [] ns h e = cc e
  well_separated-take d lo hi n s (k ∷ ks) no_nodes h e = cc h
  well_separated-take d lo hi zero s (k ∷ ks) (node_then m ms) h e = ground arith
  well_separated-take d lo hi (suc n) s (k ∷ ks) (node_then m ms) h e =
      ground (arith, well_separated-take d (some k) hi n s ks ms, beyond_less o order lo k s)

  well_separated-drop :
      (d : ℕ) (lo hi : Option K) (n : ℕ) (s : K) (ks : List K) (ns : BTreeNodes K)
      → well_separated order_of order d lo hi ks ns ≡ true
      → get_elem? ks n ≡ some s
      → well_separated order_of order d (some s) hi (drop (suc n) ks) (drop_nodes (suc n) ns) ≡ true
  well_separated-drop d lo hi n s [] ns h e = cc e
  well_separated-drop d lo hi n s (k ∷ ks) no_nodes h e = cc h
  well_separated-drop d lo hi zero s (k ∷ ks) (node_then m ms) h e = ground arith
  well_separated-drop d lo hi (suc n) s (k ∷ ks) (node_then m ms) h e =
      ground (arith, well_separated-drop d (some k) hi n s ks ms)

collect-cut :
    {K A : Type 0} (of_leaf : BTreeLeaf K → List A) (n : ℕ) (ns : BTreeNodes K)
    → collect_all of_leaf (take_nodes n ns) ++ collect_all of_leaf (drop_nodes n ns)
      ≡ collect_all of_leaf ns
collect-cut of_leaf zero ns = refl
collect-cut of_leaf (suc n) no_nodes = refl
collect-cut of_leaf (suc n) (node_then m ms) =
    append_assoc (collect of_leaf m) (collect_all of_leaf (take_nodes n ms))
      (collect_all of_leaf (drop_nodes n ms))
    ∙ ap (λ es. collect of_leaf m ++ es) (collect-cut of_leaf n ms)

module _ {K : Type 0} {order_of : K → K → KeyOrder} (o : IsOrder order_of) (order : ℕ) where
  split_at_node-grown :
      (d : ℕ) (lo hi : Option K) (n : ℕ) (s : K) (ks : List K) (ns : BTreeNodes K)
      → well_separated order_of order d lo hi ks ns ≡ true
      → get_elem? ks n ≡ some s
      → n < order
      → length (take n ks) < order
      → length (drop (suc n) ks) < order
      → grown o order (suc d) lo hi (
          some (
            inner_node (take n ks) (take_nodes (suc n) ns),
            some (record { key = s; right = inner_node (drop (suc n) ks) (drop_nodes (suc n) ns) }),
          ))
        ≡ true
  split_at_node-grown d lo hi n s ks ns h e a b c =
      let left = well_separated-take o order d lo hi n s ks ns h e in
      let right = well_separated-drop o order d lo hi n s ks ns h e in
      both (left_holds _ _ left)
        (both (both (less-ltb b) (right_holds _ _ left)) (both (less-ltb c) right))

  -- An inner node of at most `order` separators is split at the middle one.
  pub split_internal-grown :
      {A : Type 0} (of_leaf : BTreeLeaf K → List A) (d : ℕ) (lo hi : Option K) (ks : List K)
      (ns : BTreeNodes K)
      → well_separated order_of order d lo hi ks ns ≡ true
      → length ks ≡ order
      → 2 ≤ order
      → (grown o order (suc d) lo hi (split_internal ks ns) ≡ true)
        × (result_of of_leaf (split_internal ks ns) ≡ collect_all of_leaf ns)
  unfolding split_internal
  split_internal-grown of_leaf d lo hi ks ns h e two =
      let n = length ks / 2 in
      let found = get_elem?-some ks n (omega arith) in
      let next : n + 1 ≡ suc n = omega arith in
      rw (found.1, next)
        (
          split_at_node-grown d lo hi n (found.0) ks ns h (found.1) (omega arith)
              (omega (arith, length-take n ks (omega arith)))
              (omega (arith, length-drop (suc n) ks (omega arith))),
          collect-cut of_leaf (suc n) ns,
        )
