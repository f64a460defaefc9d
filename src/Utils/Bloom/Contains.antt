-- ===== src/Utils/Bloom/Contains.antt =====
-- What src/utils/bloom-filter.ts has been given, it may contain.
use query_engine.Prelude.{
  ℕ, zero, suc, ◌+◌, ◌/◌, ◌%◌, ◌≤◌, ◌<◌, ◌≡◌, refl, ◌∙◌, true, List, [], ◌∷◌, length,
  length-replicate, ==_iff, arith,
}
use native.Mathlib.Nat.{mod-lt}
use query_engine.Values.{Value}
use query_engine.Utils.Bitmap.{set_bit, test_bit}
use query_engine.Utils.Bitmap.Laws.{test_bit-set_bit, length-set}
use query_engine.Utils.Hash.{Bytes, imul, hash_value}
use query_engine.Utils.Bloom.{
  BloomFilter, bloom_filter, bloom_bit_count, bit_index, add_bits, add_hash, has_bits,
  might_contain_hash, add, might_contain, secondary_hash,
}

length-set_bit : (bits : List ℕ) (i : ℕ) → length (set_bit bits i) ≡ length bits
unfolding set_bit
length-set_bit bits i = length-set bits (i / 32) _

-- The words hold all the bits, of which there is one at least.
abbrev Fits : ℕ → List ℕ → Type 0
Fits bit_count bits = (1 ≤ bit_count) × (length bits ≡ (bit_count + 31) / 32)

module _ (bit_count primary secondary : ℕ) where
  abbrev place : ℕ → ℕ
  place i = bit_index bit_count primary secondary i

  place-inside : (bits : List ℕ) (i : ℕ) → Fits bit_count bits → place i / 32 < length bits
  unfolding bit_index
  place-inside bits i (some_bit, e) =
      let hash = (primary + imul i secondary) % 4294967296 in
      let inside : hash % bit_count < bit_count = mod-lt hash (omega arith) in
      omega (arith, e, inside)

  set_bit-Fits : (bits : List ℕ) (i : ℕ) → Fits bit_count bits → Fits bit_count (set_bit bits i)
  set_bit-Fits bits i (some_bit, e) = (some_bit, length-set_bit bits i ∙ e)

  add_bits-Fits :
      (i count : ℕ) (bits : List ℕ)
      → Fits bit_count bits
      → Fits bit_count (add_bits bit_count primary secondary i count bits)
  unfolding add_bits
  add_bits-Fits i zero bits fits = fits
  add_bits-Fits i (suc count) bits fits =
      add_bits-Fits (i + 1) count (set_bit bits (place i)) (set_bit-Fits bits (place i) fits)

  add_bits-keeps :
      (i count : ℕ) (bits : List ℕ) (j : ℕ)
      → Fits bit_count bits
      → test_bit bits j ≡ true
      → test_bit (add_bits bit_count primary secondary i count bits) j ≡ true
  unfolding add_bits
  add_bits-keeps i zero bits j fits h = h
  add_bits-keeps i (suc count) bits j fits h =
      add_bits-keeps (i + 1) count (set_bit bits (place i)) j (set_bit-Fits bits (place i) fits)
        (ground (arith, test_bit-set_bit bits (place i) j (place-inside bits i fits)))

  add_bits-has :
      (i count : ℕ) (bits : List ℕ)
      → Fits bit_count bits
      → has_bits bit_count primary secondary i count
          (add_bits bit_count primary secondary i count bits)
        ≡ true
  unfolding add_bits has_bits
  add_bits-has i zero bits fits = refl
  add_bits-has i (suc count) bits fits =
      let more = set_bit bits (place i) in
      let fits_more = set_bit-Fits bits (place i) fits in
      let here : test_bit more (place i) ≡ true = ground (
        arith,
        test_bit-set_bit bits (place i) (place i) (place-inside bits i fits),
        ==_iff (place i) (place i),
      ) in
      rw
        (
          add_bits-keeps (i + 1) count more (place i) fits_more here,
          add_bits-has (i + 1) count more fits_more,
        )
        refl

-- Bits that are set stay set, so an answer `true` stays `true`.
has_bits-more :
    (bit_count primary secondary i count : ℕ) (bits more : List ℕ)
    → ((j : ℕ) → test_bit bits j ≡ true → test_bit more j ≡ true)
    → has_bits bit_count primary secondary i count bits ≡ true
    → has_bits bit_count primary secondary i count more ≡ true
unfolding has_bits
has_bits-more bit_count primary secondary i zero bits more keeps h = refl
has_bits-more bit_count primary secondary i (suc count) bits more keeps h = ground (
  arith,
  keeps (bit_index bit_count primary secondary i),
  has_bits-more bit_count primary secondary (i + 1) count bits more keeps,
)

record Grown (f g : BloomFilter) : Type 0 where
  fits : Fits g.bit_count g.bits
  same_bits : g.bit_count ≡ f.bit_count
  same_hashes : g.hash_count ≡ f.hash_count
  keeps : (j : ℕ) → test_bit f.bits j ≡ true → test_bit g.bits j ≡ true

-- The filter after these values are added, the first one first
abbrev pub add_all : {F : Type 0} → Bytes F → List (Value F) → BloomFilter → BloomFilter
add_all bytes [] f = f
add_all bytes (v ∷ vs) f = add_all bytes vs (add bytes v f)

module _ {F : Type 0} (bytes : Bytes F) where
  add-Grown : (v : Value F) (f : BloomFilter) → Fits f.bit_count f.bits → Grown f (add bytes v f)
  unfolding add add_hash
  add-Grown v f fits =
      let primary = hash_value bytes v in
      record {
        fits =
            add_bits-Fits f.bit_count primary (secondary_hash primary) 0 f.hash_count f.bits fits;
        same_bits = refl;
        same_hashes = refl;
        keeps = λ j h.
            add_bits-keeps f.bit_count primary (secondary_hash primary) 0 f.hash_count f.bits j fits
              h;
      }

  add_all-Grown :
      (vs : List (Value F)) (f : BloomFilter)
      → Fits f.bit_count f.bits
      → Grown f (add_all bytes vs f)
  add_all-Grown [] f fits = record {
    fits = fits;
    same_bits = refl;
    same_hashes = refl;
    keeps = λ j h. h;
  }
  add_all-Grown (v ∷ vs) f fits =
      let one = add-Grown v f fits in
      let rest = add_all-Grown vs (add bytes v f) one.fits in
      record {
        fits = rest.fits;
        same_bits = rest.same_bits ∙ one.same_bits;
        same_hashes = rest.same_hashes ∙ one.same_hashes;
        keeps = λ j h. rest.keeps j (one.keeps j h);
      }

  bloom_filter-Fits :
      (expected needed rounded : ℕ)
      → let f = bloom_filter expected needed rounded in Fits f.bit_count f.bits
  unfolding bloom_filter bloom_bit_count
  bloom_filter-Fits expected needed rounded =
      (ground arith, length-replicate ((bloom_bit_count expected needed + 31) / 32) 0)

  added-might_contain :
      (v : Value F) (f : BloomFilter)
      → Fits f.bit_count f.bits
      → might_contain bytes v (add bytes v f) ≡ true
  unfolding might_contain might_contain_hash add add_hash
  added-might_contain v f fits =
      let primary = hash_value bytes v in
      add_bits-has f.bit_count primary (secondary_hash primary) 0 f.hash_count f.bits fits

  might_contain-Grown :
      (v : Value F) (f g : BloomFilter)
      → Grown f g
      → might_contain bytes v f ≡ true
      → might_contain bytes v g ≡ true
  unfolding might_contain might_contain_hash
  might_contain-Grown v f g grown h =
      let primary = hash_value bytes v in
      rw (grown.same_bits, grown.same_hashes)
        (has_bits-more f.bit_count primary (secondary_hash primary) 0 f.hash_count f.bits g.bits
          grown.keeps h)

  -- A value that was added may be contained, whatever was added before it and after it: the filter has
  -- no false negatives.
  pub might_contain-add_all :
      (expected needed rounded : ℕ) (before after : List (Value F)) (v : Value F)
      → might_contain bytes v (
          add_all bytes after
            (add bytes v (add_all bytes before (bloom_filter expected needed rounded))))
        ≡ true
  might_contain-add_all expected needed rounded before after v =
      let f = bloom_filter expected needed rounded in
      let g = add_all bytes before f in
      let fits_g = (add_all-Grown before f (bloom_filter-Fits expected needed rounded)).fits in
      let h = add bytes v g in
      let fits_h = (add-Grown v g fits_g).fits in
      might_contain-Grown v h (add_all bytes after h) (add_all-Grown after h fits_h)
        (added-might_contain v g fits_g)
