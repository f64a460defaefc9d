-- ===== src/Utils/Bitmap.antt =====
-- src/utils/bitmap.ts. A Uint32Array is a list of words; `index >>> 5` and `index & 31` are the quotient and
-- the remainder by 32. A read out of bounds is `undefined`, which the operators take for 0.
pub mod Laws
use query_engine.Prelude.{
  ℕ, zero, suc, ◌+◌, ◌-◌, ◌*◌, ◌/◌, ◌%◌, Bool, not, List, [], ◌∷◌, get_or, replicate, set, ltb,
  ◌==◌, if◌then◌else◌,
}
use query_engine.Utils.Words.{word_or, word_and, word_not, one_at, ones_below}

abbrev pub bitmap_word_count : ℕ → ℕ
bitmap_word_count length = (length + 31) / 32

unfoldable pub create_bitmap : ℕ → List ℕ
create_bitmap length = replicate (bitmap_word_count length) 0

abbrev pub word_at : List ℕ → ℕ → ℕ
word_at bitmap i = get_or bitmap i 0

unfoldable pub set_bit : List ℕ → ℕ → List ℕ
set_bit bitmap index =
    set bitmap (index / 32) (word_or (word_at bitmap (index / 32)) (one_at (index % 32)))

unfoldable pub clear_bit : List ℕ → ℕ → List ℕ
clear_bit bitmap index =
    set bitmap (index / 32)
      (word_and (word_at bitmap (index / 32)) (word_not (one_at (index % 32))))

unfoldable pub test_bit : List ℕ → ℕ → Bool
test_bit bitmap index = not (word_and (word_at bitmap (index / 32)) (one_at (index % 32)) == 0)

-- The loop of `setBitRange`, `count` bits from `start` on
abbrev pub set_bits : List ℕ → ℕ → ℕ → List ℕ
set_bits bitmap start zero = bitmap
set_bits bitmap start (suc count) = set_bits (set_bit bitmap start) (start + 1) count

unfoldable pub set_bit_range : List ℕ → ℕ → ℕ → List ℕ
unfolding set_bit
set_bit_range bitmap start end = set_bits bitmap start (end - start)

-- The words that a loop from 0 on fills
abbrev pub words_from : (ℕ → ℕ) → ℕ → ℕ → List ℕ
words_from f i zero = []
words_from f i (suc count) = f i ∷ words_from f (i + 1) count

unfoldable pub and_bitmaps : List ℕ → List ℕ → ℕ → List ℕ
and_bitmaps a b length =
    words_from (λ i. word_and (word_at a i) (word_at b i)) 0 (bitmap_word_count length)

unfoldable pub or_bitmaps : List ℕ → List ℕ → ℕ → List ℕ
or_bitmaps a b length =
    words_from (λ i. word_or (word_at a i) (word_at b i)) 0 (bitmap_word_count length)

unfoldable pub not_bitmap : List ℕ → ℕ → List ℕ
not_bitmap bitmap length =
    let words = bitmap_word_count length in
    let result = words_from (λ i. word_not (word_at bitmap i)) 0 words in
    let tail_bits = length % 32 in
    if ltb 0 tail_bits
    then set result (words - 1) (word_and (word_at result (words - 1)) (ones_below tail_bits))
    else result

-- `POPCOUNT_TABLE` at an entry below `2 ^ levels`
abbrev pub table_entry : ℕ → ℕ → ℕ
table_entry zero i = 0
table_entry (suc levels) i = table_entry levels (i / 2) + i % 2

abbrev pub word_count : ℕ → ℕ
word_count v =
    table_entry 8 (v % 256)
    + table_entry 8 (v / 256 % 256)
    + table_entry 8 (v / 65536 % 256)
    + table_entry 8 (v / 16777216 % 256)

abbrev pub count_words : List ℕ → ℕ → ℕ → ℕ
count_words bitmap i zero = 0
count_words bitmap i (suc count) = word_count (word_at bitmap i) + count_words bitmap (i + 1) count

unfoldable pub popcount : List ℕ → ℕ → ℕ
popcount bitmap length = count_words bitmap 0 (bitmap_word_count length)
