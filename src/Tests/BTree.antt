-- ===== src/Tests/BTree.antt =====
-- A tree of order 3 whose keys are numbers that `_compare` orders.
use query_engine.Prelude.{ℕ, ◌≡◌, refl, true, false, none, some, List, [], ◌∷◌, arith}
use query_engine.Values.{number}
use query_engine.Values.Ops.{to_num}
use query_engine.Pruning.Order.{alike}
use query_engine.Storage.BTree.{KeyOrder, RowLocation, BTreeIndex}
use query_engine.Storage.BTree.Keys.{compare_keys, IsOrder, compare_keys-IsOrder}
use query_engine.Storage.BTree.Operations.{b_tree_index}
use query_engine.Storage.BTree.Formed.{well_formed}
use query_engine.Storage.BTree.Range.{node_leaves}
use query_engine.Storage.BTree.Links.{linked}
use query_engine.Storage.BTree.History.{
  insert_all, search_in, range_in, range-insert_all, search-insert_all, insert_all-balanced,
}
use query_engine.Tests.Machine.{nat_js, nat_js-Ordered, number_regular}

abbrev by_number : ℕ → ℕ → KeyOrder
by_number a b = compare_keys nat_js (number a) (number b)

by_number-IsOrder : IsOrder by_number
unfolding alike to_num
by_number-IsOrder = compare_keys-IsOrder nat_js-Ordered number (λ a b. refl) number_regular

abbrev row : ℕ → RowLocation
row i = record { page_id = "p0"; row_index = i }

abbrev rows : List (ℕ × RowLocation)
rows = (2, row 0) ∷ (5, row 1) ∷ (1, row 2) ∷ (5, row 3) ∷ (4, row 4) ∷ (3, row 5) ∷ (7, row 6) ∷ []

search-insert_all_example :
    search_in by_number 5 (insert_all by_number 3 rows (some b_tree_index))
    ≡ some (row 1 ∷ row 3 ∷ [])
unfolding compare_keys
search-insert_all_example = search-insert_all by_number-IsOrder 3 (omega arith) rows 5

range-insert_all_example :
    range_in by_number
      (some 2)
      (some 5)
      false
      true
      (insert_all by_number 3 rows (some b_tree_index))
    ≡ some (row 5 ∷ row 4 ∷ row 1 ∷ row 3 ∷ [])
unfolding compare_keys
range-insert_all_example =
    range-insert_all by_number-IsOrder 3 (omega arith) rows (some 2) (some 5) false true

insert_all-balanced_example :
    (tree : BTreeIndex ℕ) × ((insert_all by_number 3 rows (some b_tree_index) ≡ some tree)
      × ((linked (node_leaves tree.root) ≡ true)
          × ((d : ℕ) × (well_formed by_number 3 d none none tree.root ≡ true))))
insert_all-balanced_example = insert_all-balanced by_number-IsOrder 3 (omega arith) rows
