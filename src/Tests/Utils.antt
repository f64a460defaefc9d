-- ===== src/Tests/Utils.antt =====
-- Bitmaps of two words, and a Bloom filter of three hashes.
use query_engine.Prelude.{ℕ, ◌%◌, ◌≡◌, refl, true, false, not, ◌&&◌, ◌||◌, List, [], ◌∷◌, arith}
use query_engine.Prelude.Int.{pos_part}
use query_engine.Values.{number, boolean}
use query_engine.Utils.Bitmap.{set_bit, clear_bit, test_bit, and_bitmaps, or_bitmaps, not_bitmap}
use query_engine.Utils.Bitmap.Laws.{test_bit-writes, test_bit-bitmaps}
use query_engine.Utils.Hash.{Bytes, hash_words}
use query_engine.Utils.Bloom.{bloom_filter, add, might_contain, bit_index, secondary_hash}
use query_engine.Utils.Words.{word_and, word_or, word_xor, one_at, of_bits}
use query_engine.Utils.Bloom.Contains.{add_all, might_contain-add_all}

abbrev two_words : List ℕ
two_words = 5 ∷ 3 ∷ []

test_bit-writes_example :
    (test_bit (set_bit two_words 35) 35 ≡ (test_bit two_words 35 || true))
    × (test_bit (clear_bit two_words 35) 35 ≡ (test_bit two_words 35 && false))
test_bit-writes_example = test_bit-writes two_words 35 35 (omega arith)

test_bit-bitmaps_example :
    (test_bit (and_bitmaps two_words (1 ∷ 1 ∷ []) 40) 33
      ≡ (test_bit two_words 33 && test_bit (1 ∷ 1 ∷ []) 33))
    × (test_bit (or_bitmaps two_words (1 ∷ 1 ∷ []) 40) 33
        ≡ (test_bit two_words 33 || test_bit (1 ∷ 1 ∷ []) 33))
    × (test_bit (not_bitmap two_words 40) 33 ≡ not (test_bit two_words 33))
test_bit-bitmaps_example = test_bit-bitmaps two_words (1 ∷ 1 ∷ []) 40 33 (omega arith)

abbrev nat_bytes : Bytes ℕ
nat_bytes = record {
  low_word = λ x. x % 4294967296;
  high_word = λ x. 0;
  as_number_53 = pos_part;
  units_of = λ s. [];
}

might_contain-add_all_example :
    might_contain nat_bytes (number 7) (
      add_all nat_bytes
        (boolean true ∷ [])
        (add nat_bytes (number 7) (add_all nat_bytes (number 3 ∷ []) (bloom_filter 3 64 3))))
    ≡ true
might_contain-add_all_example =
    might_contain-add_all nat_bytes 3 64 3 (number 3 ∷ []) (boolean true ∷ []) (number 7)

-- An empty filter answers false.
nothing_added : might_contain nat_bytes (number 7) (bloom_filter 3 64 3) ≡ false
unfolding might_contain bloom_filter bit_index secondary_hash hash_words test_bit word_and one_at
    word_xor word_or of_bits
nothing_added = refl
