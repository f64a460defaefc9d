-- ===== src/Utils/Hash.antt =====
-- src/utils/hash.ts. Words are kept below 2^32; a product of `Math.imul` is taken modulo 2^32.
use query_engine.Prelude.{ℕ, ◌*◌, ◌/◌, ◌%◌, true, false, String, List, [], ◌∷◌}
use query_engine.Prelude.Int.{ℤ}
use query_engine.Values.{Value, null, number, bigint, text, boolean}
use query_engine.Utils.Words.{word_xor}

-- `Math.imul(a, b) >>> 0`
abbrev pub imul : ℕ → ℕ → ℕ
imul a b = a * b % 4294967296

-- The number's low and high word, from its bytes
unfoldable pub hash_words : ℕ → ℕ → ℕ
hash_words low high =
    let h = word_xor low (imul high 2654435761) in
    let g = imul (word_xor h (h / 65536)) 2246822507 in word_xor g (g / 8192)

-- The loop over the UTF-16 units of a text
abbrev pub hash_units : ℕ → List ℕ → ℕ
hash_units h [] = h
hash_units h (c ∷ cs) = hash_units (imul (word_xor h c) 16777619) cs

-- The bytes of a double, the number that `Number(BigInt.asIntN(53, b))` gives, and the units of a text
pub record Bytes (F : Type 0) : Type 0 where
  pub low_word : F → ℕ
  pub high_word : F → ℕ
  pub as_number_53 : ℤ → F
  pub units_of : String → List ℕ

unfoldable pub hash_value : {F : Type 0} → Bytes F → Value F → ℕ
unfolding hash_words
hash_value bytes (number x) = hash_words (bytes.low_word x) (bytes.high_word x)
hash_value bytes (text s) = hash_units 2166136261 (bytes.units_of s)
hash_value bytes (bigint b) =
    let x = bytes.as_number_53 b in hash_words (bytes.low_word x) (bytes.high_word x)
hash_value bytes (boolean true) = 1
hash_value bytes (boolean false) = 0
hash_value bytes null = 0
