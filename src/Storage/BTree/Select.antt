-- ===== src/Storage/BTree/Select.antt =====
-- What `range` of src/storage/btree.ts yields.
use query_engine.Prelude.{
  ℕ, zero, suc, ◌+◌, ◌≡◌, refl, sym, subst, ap, ◌∙◌, Bool, true, false, not, ◌&&◌, Option, none,
  some, List, [], ◌∷◌, ◌++◌, length, get_elem?, if◌then◌else◌, arith, length-append,
}
use query_engine.Storage.BTree.{KeyOrder, RowLocation, BTreeLeaf, BTreeIndex, drop}
use query_engine.Storage.BTree.Keys.{IsOrder}
use query_engine.Storage.BTree.Entries.{
  Entries, zip, entry_keys, less, all_above, ascending, place, find_index-place, over_less,
}
use query_engine.Storage.BTree.Operations.{holds_key}
use query_engine.Storage.BTree.Formed.{leaf_entries, well_formed, entries-sorted, entries}
use query_engine.Storage.BTree.Split.{right_holds}
use query_engine.Storage.BTree.Range.{node_leaves, start_leaf, start_at, range, range_from}
use query_engine.Storage.BTree.Links.{
  linked, different, Resolves, sound_links-Resolves, Resolves-suffix,
}
use query_engine.Storage.BTree.Scan.{
  flat, flat-append, flat-leaves, selected, range_loop-scan_leaf, scan_leaf-selected,
}
use query_engine.Storage.BTree.Start.{all_before, all_past, Start, start_leaf-Start}

zip-nothing : {K : Type 0} (ks : List K) → zip ks [] ≡ []
zip-nothing [] = refl
zip-nothing (k ∷ ks) = refl

module _ {K : Type 0} {order_of : K → K → KeyOrder} (o : IsOrder order_of) (order : ℕ)
    (high : Option K) (li hi : Bool) where
  selected-before :
      (low : Option K) (a b : Entries K)
      → all_before o order low a ≡ true
      → selected order_of low high li hi (a ++ b) ≡ selected order_of low high li hi b
  selected-before low [] b h = refl
  selected-before none (e ∷ a) b h = cc h
  selected-before (some low) (e ∷ a) b h = ground (arith, selected-before (some low) a b)

  selected-past :
      (low : K) (b : Entries K)
      → all_above order_of low (entry_keys b) ≡ true
      → selected order_of (some low) high li hi b ≡ selected order_of none high true hi b
  selected-past low [] h = refl
  selected-past low (e ∷ b) h = ground (arith, selected-past low b, o.flips low (e.0))

  zip-past :
      (low k : K) (ks : List K) (vs : List (List RowLocation)) (rest : Entries K)
      → all_above order_of k ks ≡ true
      → less order_of k low ≡ false
      → all_above order_of low (entry_keys rest) ≡ true
      → all_above order_of low (entry_keys (zip ks vs ++ rest)) ≡ true
  zip-past low k [] vs rest h l r = r
  zip-past low k (x ∷ ks) [] rest h l r = r
  zip-past low k (x ∷ ks) (v ∷ vs) rest h l r =
      ground (arith, zip-past low k ks vs rest, over_less o low k x)

  abbrev first_at : K → List K → ℕ
  first_at low ks =
      let pos = place o low ks in
      if not li && holds_key order_of (get_elem? ks pos) low then suc pos else pos

  selected-first_at :
      (low : K) (ks : List K) (vs : List (List RowLocation)) (rest : Entries K)
      → length ks ≡ length vs
      → ascending order_of ks ≡ true
      → all_above order_of low (entry_keys rest) ≡ true
      → selected order_of (some low) high li hi (zip ks vs ++ rest)
        ≡ selected order_of none high true hi
            (zip (drop (first_at low ks) ks) (drop (first_at low ks) vs) ++ rest)
  selected-first_at low [] [] rest n a r = ground (arith, selected-past low rest)
  selected-first_at low [] (v ∷ vs) rest n a r = absurd (omega arith)
  selected-first_at low (k ∷ ks) [] rest n a r = absurd (omega arith)
  selected-first_at low (k ∷ ks) (v ∷ vs) rest n a r = ground (
    arith,
    selected-first_at low ks vs rest,
    selected-past low (zip ks vs ++ rest),
    zip-past low k ks vs rest,
    o.flips k low,
  )

  selected-start_at :
      (low : Option K) (ks : List K) (vs : List (List RowLocation)) (rest : Entries K)
      → length ks ≡ length vs
      → ascending order_of ks ≡ true
      → all_past o order low rest ≡ true
      → selected order_of low high li hi (zip ks vs ++ rest)
        ≡ selected order_of none high true hi (
            zip (drop (start_at order_of low li ks) ks) (drop (start_at order_of low li ks) vs)
            ++ rest)
  unfolding start_at
  selected-start_at none ks vs rest n a r = refl
  selected-start_at (some low) ks vs rest n a r =
      let next : place o low ks + 1 ≡ suc (place o low ks) = omega arith in
      rw (find_index-place o ks low a, next) (selected-first_at low ks vs rest n a r)

  ascending-suffix :
      (a b : Entries K)
      → ascending order_of (entry_keys (a ++ b)) ≡ true
      → ascending order_of (entry_keys b) ≡ true
  ascending-suffix [] b h = h
  ascending-suffix (e ∷ a) b h = ascending-suffix a b (right_holds _ _ h)

  ascending-drop :
      (i : ℕ) (ks : List K) (vs : List (List RowLocation)) (rest : Entries K)
      → ascending order_of (entry_keys (zip ks vs ++ rest)) ≡ true
      → ascending order_of (entry_keys (zip (drop i ks) (drop i vs) ++ rest)) ≡ true
  ascending-drop zero ks vs rest h = h
  ascending-drop (suc i) [] vs rest h = h
  ascending-drop (suc i) (k ∷ ks) [] rest h = rw (zip-nothing (drop i ks)) h
  ascending-drop (suc i) (k ∷ ks) (v ∷ vs) rest h = ascending-drop i ks vs rest (right_holds _ _ h)

  -- The walk, from the leaf where it starts
  range_loop-Start :
      (low : Option K) (leaves : List (BTreeLeaf K)) (found : Option (BTreeLeaf K))
      → Start o order low leaves found
      → linked leaves ≡ true
      → different leaves ≡ true
      → ascending order_of (entry_keys (flat leaves)) ≡ true
      → range_from order_of low high li hi leaves found
        ≡ some (selected order_of low high li hi (flat leaves))
  range_loop-Start low leaves found s l d a =
      let leaf = s.leaf in
      let i = start_at order_of low li leaf.keys in
      let all : flat leaves ≡ flat s.before ++ (leaf_entries leaf ++ flat s.after) =
        ap flat s.places ∙ flat-append s.before (leaf ∷ s.after) in
      let resolved =
        Resolves-suffix leaves s.before (leaf ∷ s.after)
          (subst (λ xs. Resolves leaves xs) s.places (sound_links-Resolves leaves l d)) in
      let rest =
        ascending-suffix (flat s.before) (leaf_entries leaf ++ flat s.after)
          (subst (λ es. ascending order_of (entry_keys es) ≡ true) all a) in
      rw s.found_leaf (
        ap some (
          range_loop-scan_leaf order_of high hi leaves (length leaves) leaf s.after i resolved
            (omega (arith, ap length s.places, length-append s.before (leaf ∷ s.after)))
          ∙ scan_leaf-selected o high hi
              (zip (drop i leaf.keys) (drop i leaf.values) ++ flat s.after)
              (ascending-drop i leaf.keys leaf.values (flat s.after) rest)
          ∙ sym (
              selected-start_at low leaf.keys leaf.values (flat s.after) (s.fits.0) (s.fits.1)
                s.follows)
          ∙ sym (selected-before low (flat s.before) (leaf_entries leaf ++ flat s.after) s.left_out)
          ∙ ap (λ es. selected order_of low high li hi es) (sym all)))

  pub range-selected :
      (low : Option K) (d : ℕ) (t : BTreeIndex K)
      → well_formed order_of order d none none t.root ≡ true
      → linked (node_leaves t.root) ≡ true
      → different (node_leaves t.root) ≡ true
      → range order_of low high li hi t ≡ some (selected order_of low high li hi (entries t.root))
  unfolding range
  range-selected low d t h l e =
      range_loop-Start low (node_leaves t.root) (start_leaf order_of low t.root)
        (start_leaf-Start o order low d none none t.root h) l e
        (rw (flat-leaves t.root) (right_holds _ _ (entries-sorted o order d none none t.root h)))
      ∙ ap (λ es. some (selected order_of low high li hi es)) (flat-leaves t.root)
