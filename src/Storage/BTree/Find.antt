-- ===== src/Storage/BTree/Find.antt =====
-- The binary searches of src/storage/btree.ts give the length of the prefix that passes.
use query_engine.Prelude.{
  ℕ, zero, suc, ◌+◌, ◌/◌, ◌≤◌, ◌<◌, ◌≡◌, Bool, true, false, not, ◌&&◌, List, [], ◌∷◌, length,
  get_elem?, ltb, if◌then◌else◌, arith,
}
use query_engine.Storage.BTree.{passes_at, find_loop, find_first}

module _ {K : Type 0} (test : K → Bool) where
  abbrev pub prefix_length : List K → ℕ
  prefix_length [] = 0
  prefix_length (k ∷ ks) = let rest = prefix_length ks in if test k then suc rest else 0

  abbrev pub none_pass : List K → Bool
  none_pass [] = true
  none_pass (k ∷ ks) = not (test k) && none_pass ks

  -- What passes stands before what fails.
  abbrev pub parted : List K → Bool
  parted [] = true
  parted (k ∷ ks) = if test k then parted ks else none_pass ks

  none_pass-at :
      (ks : List K) (i : ℕ)
      → none_pass ks ≡ true
      → i < length ks
      → passes_at test (get_elem? ks i) ≡ false
  none_pass-at [] i h l = absurd (omega arith)
  none_pass-at (k ∷ ks) zero h l = ground arith
  none_pass-at (k ∷ ks) (suc i) h l = none_pass-at ks i (ground arith) (omega arith)

  passes_at-prefix :
      (ks : List K) (i : ℕ)
      → parted ks ≡ true
      → i < length ks
      → passes_at test (get_elem? ks i) ≡ ltb i (prefix_length ks)
  passes_at-prefix [] i h l = absurd (omega arith)
  passes_at-prefix (k ∷ ks) zero h l = ground arith
  passes_at-prefix (k ∷ ks) (suc i) h l = ground (arith, passes_at-prefix ks i, none_pass-at ks i)

  prefix_length-le : (ks : List K) → prefix_length ks ≤ length ks
  prefix_length-le [] = omega arith
  prefix_length-le (k ∷ ks) = ground (arith, prefix_length-le ks)

  find_loop-prefix :
      (ks : List K) (fuel lo hi : ℕ)
      → parted ks ≡ true
      → hi ≤ lo + fuel
      → hi ≤ length ks
      → lo ≤ prefix_length ks
      → prefix_length ks ≤ hi
      → find_loop test ks fuel lo hi ≡ prefix_length ks
  unfolding find_loop
  find_loop-prefix ks zero lo hi h f l a b = omega arith
  find_loop-prefix ks (suc fuel) lo hi h f l a b =
      let mid = (lo + hi) / 2 in
      ground (
        arith,
        passes_at-prefix ks mid h,
        find_loop-prefix ks fuel (mid + 1) hi h,
        find_loop-prefix ks fuel lo mid h,
      )

  pub find_first-prefix : (ks : List K) → parted ks ≡ true → find_first test ks ≡ prefix_length ks
  unfolding find_first
  find_first-prefix ks h =
      find_loop-prefix ks (length ks) 0 (length ks) h (omega arith) (omega arith) (omega arith)
        (prefix_length-le ks)
