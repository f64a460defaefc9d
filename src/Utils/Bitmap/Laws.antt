-- ===== src/Utils/Bitmap/Laws.antt =====
-- The bits of the bitmaps of src/utils/bitmap.ts.
use query_engine.Prelude.{
  ℕ, zero, suc, ◌+◌, ◌-◌, ◌/◌, ◌%◌, ◌<◌, ◌≡◌, refl, sym, ap, ap₂, ◌∙◌, Bool, true, false, not, ◌&&◌,
  ◌||◌, List, [], ◌∷◌, length, get_or, set, ltb, ◌==◌, ==_iff, if◌then◌else◌, arith, Bool-cases,
  inl, inr,
}
use query_engine.Utils.Words.{
  bit, word_or, word_and, word_not, one_at, ones_below, bit-word_or, bit-word_and, bit-word_not,
  bit-one_at, bit-ones_below, word_and-one_at,
}
use query_engine.Utils.Bitmap.{
  bitmap_word_count, word_at, set_bit, clear_bit, test_bit, words_from, and_bitmaps, or_bitmaps,
  not_bitmap,
}

pub length-set : (xs : List ℕ) (i v : ℕ) → length (set xs i v) ≡ length xs
length-set [] i v = refl
length-set (x ∷ xs) zero v = refl
length-set (x ∷ xs) (suc i) v = ap suc (length-set xs i v)

pub get_or-set :
    (xs : List ℕ) (i v j : ℕ)
    → i < length xs
    → get_or (set xs i v) j 0 ≡ (if i == j then v else get_or xs j 0)
get_or-set [] i v j h = absurd (omega arith)
get_or-set (x ∷ xs) zero v zero h = refl
get_or-set (x ∷ xs) zero v (suc j) h = ground arith
get_or-set (x ∷ xs) (suc i) v zero h = ground arith
get_or-set (x ∷ xs) (suc i) v (suc j) h = ground (arith, get_or-set xs i v j)

pub test_bit-bit :
    (bitmap : List ℕ) (i : ℕ) → test_bit bitmap i ≡ bit (word_at bitmap (i / 32)) (i % 32)
unfolding test_bit
test_bit-bit bitmap i =
    ground (arith, word_and-one_at (word_at bitmap (i / 32)) (i % 32) (omega arith))

same_place : (i j : ℕ) → (i == j) ≡ ((i / 32 == j / 32) && (j % 32 == i % 32))
same_place i j = ground arith

bit-if : (c : Bool) (v w k : ℕ) → bit (if c then v else w) k ≡ (if c then bit v k else bit w k)
bit-if true v w k = refl
bit-if false v w k = refl

same_word : (bitmap : List ℕ) (i j : ℕ) → (i == j) ≡ true → word_at bitmap i ≡ word_at bitmap j
same_word bitmap i j e = ap (word_at bitmap) ((==_iff i j).0 e)

same_bit_of :
    (bitmap : List ℕ) (k j : ℕ)
    → (k == j / 32) ≡ true
    → bit (word_at bitmap k) (j % 32) ≡ bit (word_at bitmap (j / 32)) (j % 32)
same_bit_of bitmap k j e = ap (λ w. bit w (j % 32)) (same_word bitmap k (j / 32) e)

-- The word that a write at `k` leaves at the place of bit `j`
bit-written :
    (bitmap : List ℕ) (k j v : ℕ)
    → k < length bitmap
    → test_bit (set bitmap k v) j
      ≡ (if k == j / 32 then bit v (j % 32) else bit (word_at bitmap (j / 32)) (j % 32))
bit-written bitmap k j v h =
    test_bit-bit (set bitmap k v) j
    ∙ ap (λ w. bit w (j % 32)) (get_or-set bitmap k v (j / 32) h)
    ∙ bit-if (k == j / 32) v (word_at bitmap (j / 32)) (j % 32)

pub test_bit-set_bit :
    (bitmap : List ℕ) (i j : ℕ)
    → i / 32 < length bitmap
    → test_bit (set_bit bitmap i) j ≡ (test_bit bitmap j || (i == j))
unfolding set_bit
test_bit-set_bit bitmap i j h =
    let w = word_at bitmap (i / 32) in
    let b = one_at (i % 32) in
    ground (
      arith,
      bit-written bitmap (i / 32) j (word_or w b) h,
      bit-word_or (j % 32) (omega arith) w b,
      bit-one_at (j % 32) (omega arith) (i % 32),
      same_place i j,
      test_bit-bit bitmap j,
      same_bit_of bitmap (i / 32) j,
    )

pub test_bit-clear_bit :
    (bitmap : List ℕ) (i j : ℕ)
    → i / 32 < length bitmap
    → test_bit (clear_bit bitmap i) j ≡ (test_bit bitmap j && not (i == j))
unfolding clear_bit
test_bit-clear_bit bitmap i j h =
    let w = word_at bitmap (i / 32) in
    let b = one_at (i % 32) in
    ground (
      arith,
      bit-written bitmap (i / 32) j (word_and w (word_not b)) h,
      bit-word_and (j % 32) (omega arith) w (word_not b),
      bit-word_not (j % 32) (omega arith) b,
      bit-one_at (j % 32) (omega arith) (i % 32),
      same_place i j,
      test_bit-bit bitmap j,
      same_bit_of bitmap (i / 32) j,
    )

pub get_or-words_from :
    (f : ℕ → ℕ) (start count i : ℕ)
    → i < count
    → get_or (words_from f start count) i 0 ≡ f (start + i)
get_or-words_from f start zero i h = absurd (omega arith)
get_or-words_from f start (suc count) zero h = ap f (omega arith)
get_or-words_from f start (suc count) (suc i) h =
    get_or-words_from f (start + 1) count i (omega arith) ∙ ap f (omega arith)

length-words_from : (f : ℕ → ℕ) (start count : ℕ) → length (words_from f start count) ≡ count
length-words_from f start zero = refl
length-words_from f start (suc count) = ap suc (length-words_from f (start + 1) count)

test_bit-words :
    (f : ℕ → ℕ) (n i : ℕ)
    → i < n
    → test_bit (words_from f 0 (bitmap_word_count n)) i ≡ bit (f (i / 32)) (i % 32)
test_bit-words f n i h =
    test_bit-bit (words_from f 0 (bitmap_word_count n)) i
    ∙ ap (λ w. bit w (i % 32))
        (get_or-words_from f 0 (bitmap_word_count n) (i / 32) (omega arith) ∙ ap f (omega arith))

pub test_bit-and_bitmaps :
    (a b : List ℕ) (n i : ℕ)
    → i < n
    → test_bit (and_bitmaps a b n) i ≡ (test_bit a i && test_bit b i)
unfolding and_bitmaps
test_bit-and_bitmaps a b n i h =
    test_bit-words (λ k. word_and (word_at a k) (word_at b k)) n i h
    ∙ bit-word_and (i % 32) (omega arith) (word_at a (i / 32)) (word_at b (i / 32))
    ∙ ap₂ (λ p q. p && q) (sym (test_bit-bit a i)) (sym (test_bit-bit b i))

pub test_bit-or_bitmaps :
    (a b : List ℕ) (n i : ℕ)
    → i < n
    → test_bit (or_bitmaps a b n) i ≡ (test_bit a i || test_bit b i)
unfolding or_bitmaps
test_bit-or_bitmaps a b n i h =
    test_bit-words (λ k. word_or (word_at a k) (word_at b k)) n i h
    ∙ bit-word_or (i % 32) (omega arith) (word_at a (i / 32)) (word_at b (i / 32))
    ∙ ap₂ (λ p q. p || q) (sym (test_bit-bit a i)) (sym (test_bit-bit b i))

module _ (bitmap : List ℕ) (n i : ℕ) (h : i < n) where
  abbrev words : ℕ
  words = bitmap_word_count n

  abbrev flipped : List ℕ
  flipped = words_from (λ k. word_not (word_at bitmap k)) 0 words

  test_bit-flipped : test_bit flipped i ≡ not (test_bit bitmap i)
  test_bit-flipped =
      test_bit-words (λ k. word_not (word_at bitmap k)) n i h
      ∙ bit-word_not (i % 32) (omega arith) (word_at bitmap (i / 32))
      ∙ ap not (sym (test_bit-bit bitmap i))

  test_bit-masked :
      0 < n % 32
      → test_bit
          (set flipped (words - 1) (word_and (word_at flipped (words - 1)) (ones_below (n % 32))))
          i
        ≡ not (test_bit bitmap i)
  test_bit-masked tail =
      let w = word_at flipped (words - 1) in
      let mask = ones_below (n % 32) in
      let last : words - 1 < length flipped =
        omega (arith, length-words_from (λ k. word_not (word_at bitmap k)) 0 words) in
      let inside : ((words - 1 == i / 32) ≡ true) → (ltb (i % 32) (n % 32) ≡ true) =
        λ e. ground arith in
      ground (
        arith,
        bit-written flipped (words - 1) i (word_and w mask) last,
        bit-word_and (i % 32) (omega arith) w mask,
        bit-ones_below (i % 32) (omega arith) (n % 32),
        same_bit_of flipped (words - 1) i,
        test_bit-bit flipped i,
        test_bit-flipped,
        inside,
      )

  pub test_bit-not_bitmap : test_bit (not_bitmap bitmap n) i ≡ not (test_bit bitmap i)
  unfolding not_bitmap
  test_bit-not_bitmap = elim (Bool-cases (ltb 0 (n % 32))) [
    | inl e ↦ rw e (test_bit-masked (ground arith))
    | inr e ↦ rw e test_bit-flipped
  ]

-- If the bitmap has the word of bit `i`, then setting `i` adds it to the bits that are set, and clearing
-- `i` takes it away, and no other bit changes.
pub test_bit-writes :
    (bitmap : List ℕ) (i j : ℕ)
    → i / 32 < length bitmap
    → (test_bit (set_bit bitmap i) j ≡ (test_bit bitmap j || (i == j)))
      × (test_bit (clear_bit bitmap i) j ≡ (test_bit bitmap j && not (i == j)))
test_bit-writes bitmap i j h = (test_bit-set_bit bitmap i j h, test_bit-clear_bit bitmap i j h)

-- Below the length, the bits of the AND, the OR and the NOT of bitmaps are those of the sets: of the
-- intersection, the union and the complement.
pub test_bit-bitmaps :
    (a b : List ℕ) (n i : ℕ)
    → i < n
    → (test_bit (and_bitmaps a b n) i ≡ (test_bit a i && test_bit b i))
      × (test_bit (or_bitmaps a b n) i ≡ (test_bit a i || test_bit b i))
      × (test_bit (not_bitmap a n) i ≡ not (test_bit a i))
test_bit-bitmaps a b n i h =
    (test_bit-and_bitmaps a b n i h, test_bit-or_bitmaps a b n i h, test_bit-not_bitmap a n i h)
