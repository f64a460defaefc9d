-- ===== src/Storage/BTree.antt =====
-- src/storage/btree.ts. The tree is a value: what a method changes in place, its function returns. A leaf
-- has an identity, by which `next` names it; `fresh` is the identity that a new leaf gets.
--
-- `order_of` is `_compare`. None is the error on a child that does not exist.
pub mod Operations
pub mod Keys
pub mod Find
pub mod Entries
pub mod Put
pub mod Cut
pub mod Splice
pub mod Formed
pub mod Search
pub mod Grown
pub mod Split
pub mod InsertLeaf
pub mod Insert
pub mod Held
pub mod History
pub mod Range
pub mod Links
pub mod Relink
pub mod Scan
pub mod Start
pub mod Select
use query_engine.Prelude.{
  ℕ, zero, suc, ◌+◌, ◌/◌, String, Bool, true, false, Option, none, some, List, [], ◌∷◌, ◌++◌,
  length, get_elem?, get_or, ltb, leb, ◌==◌, if◌then◌else◌,
}

-- The sign of the number that `_compare` gives.
pub data KeyOrder : Type 0 where
  key_less key_equal key_greater : KeyOrder

abbrev pub is_less : KeyOrder → Bool
is_less key_less = true
is_less _ = false

abbrev pub is_equal : KeyOrder → Bool
is_equal key_equal = true
is_equal _ = false

abbrev pub is_greater : KeyOrder → Bool
is_greater key_greater = true
is_greater _ = false

pub record RowLocation : Type 0 where
  pub page_id : String
  pub row_index : ℕ

pub record BTreeLeaf (K : Type 0) : Type 0 where
  pub leaf_id : ℕ
  pub keys : List K
  pub values : List (List RowLocation)
  pub next_id : Option ℕ

mutual
  pub data BTreeNode (K : Type 0) : Type 0 where
    leaf_node : BTreeLeaf K → BTreeNode K
    inner_node : List K → BTreeNodes K → BTreeNode K

  pub data BTreeNodes (K : Type 0) : Type 0 where
    no_nodes : BTreeNodes K
    node_then : BTreeNode K → BTreeNodes K → BTreeNodes K

pub record SplitResult (K : Type 0) : Type 0 where
  pub key : K
  pub right : BTreeNode K

pub record BTreeIndex (K : Type 0) : Type 0 where
  pub root : BTreeNode K
  pub fresh_id : ℕ

-- `splice(pos, 0, x)`, and what `splice(mid)` leaves and removes
abbrev pub insert_at {ℓ} : {A : Type ℓ} → ℕ → A → List A → List A
insert_at zero x xs = x ∷ xs
insert_at (suc i) x [] = x ∷ []
insert_at (suc i) x (y ∷ ys) = y ∷ insert_at i x ys

abbrev pub take {ℓ} : {A : Type ℓ} → ℕ → List A → List A
take zero xs = []
take (suc n) [] = []
take (suc n) (x ∷ xs) = x ∷ take n xs

abbrev pub drop {ℓ} : {A : Type ℓ} → ℕ → List A → List A
drop zero xs = xs
drop (suc n) [] = []
drop (suc n) (x ∷ xs) = drop n xs

-- `values[pos].push(location)`
abbrev pub push_at : ℕ → RowLocation → List (List RowLocation) → List (List RowLocation)
push_at i v [] = []
push_at zero v (vs ∷ rest) = (vs ++ v ∷ []) ∷ rest
push_at (suc i) v (vs ∷ rest) = vs ∷ push_at i v rest

module _ {K : Type 0} where
  abbrev pub insert_node_at : ℕ → BTreeNode K → BTreeNodes K → BTreeNodes K
  insert_node_at zero n ns = node_then n ns
  insert_node_at (suc i) n no_nodes = node_then n no_nodes
  insert_node_at (suc i) n (node_then m ms) = node_then m (insert_node_at i n ms)

  abbrev pub take_nodes : ℕ → BTreeNodes K → BTreeNodes K
  take_nodes zero ns = no_nodes
  take_nodes (suc i) no_nodes = no_nodes
  take_nodes (suc i) (node_then n ns) = node_then n (take_nodes i ns)

  abbrev pub drop_nodes : ℕ → BTreeNodes K → BTreeNodes K
  drop_nodes zero ns = ns
  drop_nodes (suc i) no_nodes = no_nodes
  drop_nodes (suc i) (node_then n ns) = drop_nodes i ns

  -- The loop of `_findIndex` and of `_findChildIndex`: the first place from `lo` on whose key fails the
  -- test. Each round shrinks the interval, so its length is enough fuel.
  abbrev pub passes_at : (K → Bool) → Option K → Bool
  passes_at test none = true
  passes_at test (some k) = test k

  unfoldable pub find_loop : (K → Bool) → List K → ℕ → ℕ → ℕ → ℕ
  find_loop test ks zero lo hi = lo
  find_loop test ks (suc fuel) lo hi =
      let mid = (lo + hi) / 2 in
      let later = find_loop test ks fuel (mid + 1) hi in
      let earlier = find_loop test ks fuel lo mid in
      if ltb lo hi then (if passes_at test (get_elem? ks mid) then later else earlier) else lo

  unfoldable pub find_first : (K → Bool) → List K → ℕ
  unfolding find_loop
  find_first test ks = find_loop test ks (length ks) 0 (length ks)
