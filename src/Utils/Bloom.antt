-- ===== src/Utils/Bloom.antt =====
-- src/utils/bloom-filter.ts. The numbers of bits and of hashes that the logarithms give are parameters of
-- the constructor; the words are read modulo 2^32.
pub mod Contains
use query_engine.Prelude.{
  ℕ, zero, suc, ◌+◌, ◌*◌, ◌/◌, ◌%◌, Bool, true, false, not, ◌&&◌, List, [], ◌∷◌, replicate, max,
  ◌==◌, if◌then◌else◌,
}
use query_engine.Values.{Value}
use query_engine.Utils.Words.{word_xor, word_or}
use query_engine.Utils.Bitmap.{set_bit, test_bit}
use query_engine.Utils.Hash.{Bytes, imul, hash_value}

pub record BloomFilter : Type 0 where
  pub bits : List ℕ
  pub bit_count : ℕ
  pub hash_count : ℕ
  pub inserted_count : ℕ

-- `needed` is the ceiling of the quotient of logarithms.
unfoldable pub bloom_bit_count : ℕ → ℕ → ℕ
bloom_bit_count expected_entries needed = if expected_entries == 0 then 32 else max 32 needed

-- `rounded` is the rounded product with the logarithm.
unfoldable pub bloom_hash_count : ℕ → ℕ → ℕ
bloom_hash_count expected_entries rounded = if expected_entries == 0 then 1 else max 1 rounded

unfoldable pub bloom_filter : ℕ → ℕ → ℕ → BloomFilter
unfolding bloom_bit_count bloom_hash_count
bloom_filter expected_entries needed rounded =
    let bit_count = bloom_bit_count expected_entries needed in
    record {
      bits = replicate ((bit_count + 31) / 32) 0;
      bit_count = bit_count;
      hash_count = bloom_hash_count expected_entries rounded;
      inserted_count = 0;
    }

unfoldable pub secondary_hash : ℕ → ℕ
secondary_hash primary = word_or (imul (word_xor primary (primary / 32768)) 668265261) 1

-- The bit of the hash with number `i`
unfoldable pub bit_index : ℕ → ℕ → ℕ → ℕ → ℕ
bit_index bit_count primary secondary i = (primary + imul i secondary) % 4294967296 % bit_count

-- The loop of `addHash` from `i` on, for `count` hashes
unfoldable pub add_bits : ℕ → ℕ → ℕ → ℕ → ℕ → List ℕ → List ℕ
unfolding set_bit bit_index
add_bits bit_count primary secondary i zero bits = bits
add_bits bit_count primary secondary i (suc count) bits =
    add_bits bit_count primary secondary (i + 1) count
      (set_bit bits (bit_index bit_count primary secondary i))

unfoldable pub add_hash : ℕ → BloomFilter → BloomFilter
unfolding add_bits secondary_hash
add_hash primary f = record f {
  bits = add_bits f.bit_count primary (secondary_hash primary) 0 f.hash_count f.bits;
  inserted_count = f.inserted_count + 1;
}

-- The loop of `mightContainHash` from `i` on, for `count` hashes
unfoldable pub has_bits : ℕ → ℕ → ℕ → ℕ → ℕ → List ℕ → Bool
unfolding test_bit bit_index
has_bits bit_count primary secondary i zero bits = true
has_bits bit_count primary secondary i (suc count) bits =
    let rest = has_bits bit_count primary secondary (i + 1) count bits in
    if not (test_bit bits (bit_index bit_count primary secondary i)) then false else rest

unfoldable pub might_contain_hash : ℕ → BloomFilter → Bool
unfolding has_bits secondary_hash
might_contain_hash primary f =
    has_bits f.bit_count primary (secondary_hash primary) 0 f.hash_count f.bits

unfoldable pub add : {F : Type 0} → Bytes F → Value F → BloomFilter → BloomFilter
unfolding add_hash hash_value
add bytes v f = add_hash (hash_value bytes v) f

unfoldable pub might_contain : {F : Type 0} → Bytes F → Value F → BloomFilter → Bool
unfolding might_contain_hash hash_value
might_contain bytes v f = might_contain_hash (hash_value bytes v) f
