-- ===== src/Storage/BTree/Links.antt =====
-- The links between the leaves of a tree of src/storage/btree.ts.
use query_engine.Prelude.{
  ℕ, suc, ◌<◌, ◌≡◌, refl, ap, ◌∙◌, Bool, true, false, not, ◌&&◌, Option, none, some, List, [], ◌∷◌,
  ◌++◌, get_elem?, ◌==◌, ltb, arith,
}
use query_engine.Storage.BTree.{BTreeLeaf}
use query_engine.Storage.BTree.Range.{next_leaf}

abbrev pub names : Option ℕ → Option ℕ → Bool
names none none = true
names none (some i) = false
names (some i) none = false
names (some i) (some j) = i == j

module _ {K : Type 0} where
  abbrev pub head_id : List (BTreeLeaf K) → Option ℕ
  head_id [] = none
  head_id (leaf ∷ leaves) = some leaf.leaf_id

  -- Each leaf names the one after it.
  abbrev pub linked : List (BTreeLeaf K) → Bool
  linked [] = true
  linked (leaf ∷ leaves) = names leaf.next_id (head_id leaves) && linked leaves

  abbrev pub lacks : ℕ → List (BTreeLeaf K) → Bool
  lacks i [] = true
  lacks i (leaf ∷ leaves) = not (leaf.leaf_id == i) && lacks i leaves

  abbrev pub different : List (BTreeLeaf K) → Bool
  different [] = true
  different (leaf ∷ leaves) = lacks leaf.leaf_id leaves && different leaves

  abbrev pub below : ℕ → List (BTreeLeaf K) → Bool
  below fresh [] = true
  below fresh (leaf ∷ leaves) = ltb leaf.leaf_id fresh && below fresh leaves

  abbrev pub sound_links : ℕ → List (BTreeLeaf K) → Bool
  sound_links fresh leaves = linked leaves && (different leaves && below fresh leaves)

  -- What an insertion does to the leaves: one keeps its links, or is split in two.
  pub data Relinked (fresh : ℕ) : List (BTreeLeaf K) → List (BTreeLeaf K) → Type 0 where
    kept :
        (a b : BTreeLeaf K) (rest : List (BTreeLeaf K))
        → a.leaf_id ≡ b.leaf_id
        → a.next_id ≡ b.next_id
        → Relinked fresh (a ∷ rest) (b ∷ rest)
    parts :
        (a b c : BTreeLeaf K) (rest : List (BTreeLeaf K))
        → a.leaf_id ≡ b.leaf_id
        → b.next_id ≡ some fresh
        → c.leaf_id ≡ fresh
        → a.next_id ≡ c.next_id
        → Relinked fresh (a ∷ rest) (b ∷ c ∷ rest)
    later :
        (a : BTreeLeaf K) {xs ys : List (BTreeLeaf K)}
        → Relinked fresh xs ys
        → Relinked fresh (a ∷ xs) (a ∷ ys)

  pub Relinked-append_right :
      {fresh : ℕ} {xs ys : List (BTreeLeaf K)} (zs : List (BTreeLeaf K))
      → Relinked fresh xs ys
      → Relinked fresh (xs ++ zs) (ys ++ zs)
  Relinked-append_right zs (kept a b rest i n) = kept a b (rest ++ zs) i n
  Relinked-append_right zs (parts a b c rest i n j m) = parts a b c (rest ++ zs) i n j m
  Relinked-append_right zs (later a r) = later a (Relinked-append_right zs r)

  pub Relinked-append_left :
      {fresh : ℕ} (zs : List (BTreeLeaf K)) {xs ys : List (BTreeLeaf K)}
      → Relinked fresh xs ys
      → Relinked fresh (zs ++ xs) (zs ++ ys)
  Relinked-append_left [] r = r
  Relinked-append_left (z ∷ zs) r = later z (Relinked-append_left zs r)

  lacks-below :
      (fresh : ℕ) (xs : List (BTreeLeaf K)) → below fresh xs ≡ true → lacks fresh xs ≡ true
  lacks-below fresh [] h = refl
  lacks-below fresh (x ∷ xs) h = ground (arith, lacks-below fresh xs)

  below-suc :
      (fresh : ℕ) (xs : List (BTreeLeaf K)) → below fresh xs ≡ true → below (suc fresh) xs ≡ true
  below-suc fresh [] h = refl
  below-suc fresh (x ∷ xs) h = ground (arith, below-suc fresh xs)

  lacks-Relinked :
      {fresh : ℕ} {xs ys : List (BTreeLeaf K)} (i : ℕ)
      → Relinked fresh xs ys
      → lacks i xs ≡ true
      → i < fresh
      → lacks i ys ≡ true
  lacks-Relinked i (kept a b rest e n) h l = ground (arith, e)
  lacks-Relinked i (parts a b c rest e n j m) h l = ground (arith, e, j)
  lacks-Relinked i (later a r) h l = ground (arith, lacks-Relinked i r)

  head_id-Relinked :
      {fresh : ℕ} {xs ys : List (BTreeLeaf K)} → Relinked fresh xs ys → head_id xs ≡ head_id ys
  head_id-Relinked (kept a b rest e n) = ap some e
  head_id-Relinked (parts a b c rest e n j m) = ap some e
  head_id-Relinked (later a r) = refl

  pub sound_links-Relinked :
      {fresh : ℕ} {xs ys : List (BTreeLeaf K)}
      → Relinked fresh xs ys
      → sound_links fresh xs ≡ true
      → sound_links (suc fresh) ys ≡ true
  sound_links-Relinked {fresh} (kept a b rest e n) h = ground (arith, e, n, below-suc fresh rest)
  sound_links-Relinked {fresh} (parts a b c rest e n j m) h = ground (
    arith,
    e,
    n,
    j,
    ap (λ i. names i (head_id rest)) m,
    ap (λ i. lacks i rest) e,
    ap (λ i. lacks i rest) j,
    below-suc fresh rest,
    lacks-below fresh rest,
  )
  sound_links-Relinked (later a r) h =
      ground (arith, sound_links-Relinked r, head_id-Relinked r, lacks-Relinked a.leaf_id r)

  abbrev pub Resolves : List (BTreeLeaf K) → List (BTreeLeaf K) → Type 0
  Resolves all [] = Unit
  Resolves all (leaf ∷ leaves) =
      (next_leaf all leaf.next_id ≡ get_elem? leaves 0) × Resolves all leaves

  next_leaf-lacks :
      (n : Option ℕ) (x y : BTreeLeaf K) (xs : List (BTreeLeaf K))
      → names n (some y.leaf_id) ≡ true
      → (y.leaf_id == x.leaf_id) ≡ false
      → next_leaf (x ∷ xs) n ≡ next_leaf xs n
  next_leaf-lacks none x y xs h l = refl
  next_leaf-lacks (some i) x y xs h l = ground arith

  next_leaf-second :
      (n : Option ℕ) (x y : BTreeLeaf K) (xs : List (BTreeLeaf K))
      → names n (some y.leaf_id) ≡ true
      → (y.leaf_id == x.leaf_id) ≡ false
      → next_leaf (x ∷ y ∷ xs) n ≡ some y
  next_leaf-second none x y xs h l = cc h
  next_leaf-second (some i) x y xs h l = ground arith

  Resolves-lacks :
      (x : BTreeLeaf K) (xs ys : List (BTreeLeaf K))
      → Resolves xs ys
      → linked ys ≡ true
      → lacks x.leaf_id ys ≡ true
      → Resolves (x ∷ xs) ys
  Resolves-lacks x xs [] r h l = tt
  Resolves-lacks x xs (y ∷ []) r h l = (ground arith, tt)
  Resolves-lacks x xs (y ∷ z ∷ ys) r h l = (
    next_leaf-lacks y.next_id x z xs (ground arith) (ground arith) ∙ r.0,
    Resolves-lacks x xs (z ∷ ys) (r.1) (ground arith) (ground arith),
  )

  -- Sound links lead from each leaf to the one after it.
  pub sound_links-Resolves :
      (xs : List (BTreeLeaf K)) → linked xs ≡ true → different xs ≡ true → Resolves xs xs
  sound_links-Resolves [] h d = tt
  sound_links-Resolves (x ∷ []) h d = (ground arith, tt)
  sound_links-Resolves (x ∷ y ∷ xs) h d = (
    next_leaf-second x.next_id x y xs (ground arith) (ground arith),
    Resolves-lacks x (y ∷ xs) (y ∷ xs) (sound_links-Resolves (y ∷ xs) (ground arith) (ground arith))
        (ground arith) (ground arith),
  )

  pub Resolves-suffix : (all xs ys : List (BTreeLeaf K)) → Resolves all (xs ++ ys) → Resolves all ys
  Resolves-suffix all [] ys r = r
  Resolves-suffix all (x ∷ xs) ys r = Resolves-suffix all xs ys (r.1)
