-- ===== src/Storage/BTree/Held.antt =====
-- What a tree of src/storage/btree.ts holds, before and after an insertion.
use query_engine.Prelude.{
  ℕ, suc, ◌+◌, ◌≤◌, ◌≡◌, refl, sym, subst, ap, ◌∙◌, true, false, Option, none, some, [], ◌++◌,
  arith,
}
use mathlib.Core.List.{append-nil}
use query_engine.Storage.BTree.{KeyOrder, RowLocation, BTreeNode, SplitResult, BTreeIndex}
use query_engine.Storage.BTree.Keys.{IsOrder}
use query_engine.Storage.BTree.Entries.{Entries, ascending, put, entry_keys}
use query_engine.Storage.BTree.Operations.{insert_internal, new_root, insert, b_tree_index}
use query_engine.Storage.BTree.Formed.{entries, well_formed, entries-sorted}
use query_engine.Storage.BTree.Split.{right_holds}
use query_engine.Storage.BTree.Grown.{result_of}
use query_engine.Storage.BTree.InsertLeaf.{Put}
use query_engine.Storage.BTree.Insert.{insert_internal-Put}
use query_engine.Storage.BTree.Range.{one_leaf, node_leaves}
use query_engine.Storage.BTree.Links.{sound_links, sound_links-Relinked}
use query_engine.Storage.BTree.Relink.{insert_internal-Relinked}

module _ {K : Type 0} {order_of : K → K → KeyOrder} (o : IsOrder order_of) (order : ℕ) where
  -- A well-formed tree whose leaves are linked in order, and its entries
  pub record HeldBy (e : Entries K) (t : BTreeIndex K) : Type 0 where
    pub depth : ℕ
    pub formed : well_formed order_of order depth none none t.root ≡ true
    pub same_entries : entries t.root ≡ e
    pub links : sound_links t.fresh_id (node_leaves t.root) ≡ true

  abbrev pub Holds : Entries K → Option (BTreeIndex K) → Type 0
  Holds e none = true ≡ false
  Holds e (some t) = HeldBy e t

  new_root-Holds :
      (d fresh : ℕ) (r : Option (BTreeNode K × Option (SplitResult K))) (e : Entries K)
      → 2 ≤ order
      → Put o order d none none r e
      → sound_links fresh (result_of one_leaf r) ≡ true
      → Holds e (new_root fresh r)
  unfolding Put
  new_root-Holds d fresh none e two p l = cc (p.0)
  new_root-Holds d fresh (some (n, none)) e two p l = record {
    depth = d;
    formed = p.0;
    same_entries = p.1;
    links = l;
  }
  new_root-Holds d fresh (some (n, some result)) e two p l = record {
    depth = suc d;
    formed = ground (arith, p.0);
    same_entries = ap (λ es. entries n ++ es) (append-nil (entries result.right)) ∙ p.1;
    links = rw (append-nil (node_leaves result.right)) l;
  }

  pub insert-Holds :
      (key : K) (v : RowLocation) (t : BTreeIndex K) (e : Entries K)
      → 2 ≤ order
      → HeldBy e t
      → Holds (put order_of key v e) (insert order_of order key v t)
  unfolding insert Put
  insert-Holds key v t e two h =
      let r = insert_internal order_of order t.fresh_id key v t.root in
      let next : t.fresh_id + 1 ≡ suc t.fresh_id = omega arith in
      rw (sym h.same_entries, next)
        (new_root-Holds h.depth (suc t.fresh_id) r (put order_of key v (entries t.root)) two
          (insert_internal-Put o order t.fresh_id h.depth none none key v t.root h.formed refl refl
            two)
          (sound_links-Relinked
            (insert_internal-Relinked o order t.fresh_id h.depth none none key v t.root h.formed
              refl refl two)
            h.links))

  pub HeldBy-ascending :
      (t : BTreeIndex K) (e : Entries K) → HeldBy e t → ascending order_of (entry_keys e) ≡ true
  HeldBy-ascending t e h =
      subst (λ es. ascending order_of (entry_keys es) ≡ true) h.same_entries
        (right_holds _ _ (entries-sorted o order h.depth none none t.root h.formed))

  pub b_tree_index-Holds : 2 ≤ order → HeldBy [] b_tree_index
  unfolding b_tree_index
  b_tree_index-Holds two = record {
    depth = 0;
    formed = ground arith;
    same_entries = refl;
    links = refl;
  }
