-- ===== src/Encoding/FrameOfReference.antt =====
-- src/storage/encoding/frame-of-reference.ts, and the bounds that `scanValues` of integer-values.ts finds.
--
-- The values of an INT32 or INT64 column are integers; `half` is 2^31 or 2^63. A typed array keeps the
-- low bits of what is stored in it. The arithmetic before the store is exact: bigints, or numbers
-- that stay below 2^53.
pub mod RoundTrip
use query_engine.Prelude.{
  ℕ, ◌+◌, ◌-◌, ◌*◌, ◌%◌, ◌^◌, Option, none, some, List, [], ◌∷◌, map, ltb, if◌then◌else◌,
}
use query_engine.Prelude.Int.{ℤ, pos, negsuc, ◌+ℤ◌, ◌-ℤ◌, ltb_ℤ}

pub record OffsetContainer : Type 0 where
  pub width : ℕ
  pub limit : ℕ
  -- of `Ctor`: its elements are below `modulus`
  pub modulus : ℕ

abbrev pub offset_containers : List OffsetContainer
offset_containers =
    record { width = 1; limit = 256; modulus = 2 ^ 8 }
    ∷ record { width = 2; limit = 65536; modulus = 2 ^ 16 }
    ∷ record { width = 4; limit = 4294967296; modulus = 2 ^ 32 }
    ∷ []

unfoldable pub first_container : List OffsetContainer → ℤ → Option OffsetContainer
first_container [] range = none
first_container (c ∷ cs) range =
    let rest = first_container cs range in if ltb_ℤ range (pos c.limit) then some c else rest

unfoldable pub container_for_range : ℤ → Option OffsetContainer
unfolding first_container
container_for_range = first_container offset_containers

-- What an unsigned array whose elements are below `modulus` stores.
unfoldable pub to_unsigned : ℕ → ℤ → ℕ
to_unsigned modulus (pos n) = n % modulus
to_unsigned modulus (negsuc n) = modulus - 1 - n % modulus

-- What a signed array with elements from `-half` up to `half` stores.
unfoldable pub to_signed : ℕ → ℤ → ℤ
unfolding to_unsigned
to_signed half v =
    let word = to_unsigned (half * 2) v in
    if ltb word half then pos word else negsuc (half * 2 - 1 - word)

pub record IntegerStats : Type 0 where
  pub min_value : ℤ
  pub max_value : ℤ

-- The loop of `scanValues`, without its count of runs.
unfoldable pub scan_from : ℤ → ℤ → List ℤ → IntegerStats
scan_from lo hi [] = record { min_value = lo; max_value = hi }
scan_from lo hi (v ∷ vs) =
    let lower = scan_from v hi vs in
    let higher = scan_from lo v vs in
    let within = scan_from lo hi vs in
    if ltb_ℤ v lo then lower else if ltb_ℤ hi v then higher else within

unfoldable pub scan_bounds : ℤ → List ℤ → IntegerStats
unfolding scan_from
scan_bounds v vs = scan_from v v vs

pub record FrameOfReferenceVector : Type 0 where
  pub anchor : ℤ
  pub offsets : List ℕ

unfoldable pub encode_in :
    IntegerStats → List ℤ → Option OffsetContainer → Option FrameOfReferenceVector
unfolding to_unsigned ◌-ℤ◌
encode_in stats values none = none
encode_in stats values (some c) = some (record {
  anchor = stats.min_value;
  offsets = map (λ v. to_unsigned c.modulus (v -ℤ stats.min_value)) values;
})

-- None where the code throws.
unfoldable pub encode : IntegerStats → List ℤ → Option FrameOfReferenceVector
unfolding encode_in container_for_range ◌-ℤ◌
encode stats values =
    encode_in stats values (container_for_range (stats.max_value -ℤ stats.min_value))

unfoldable pub decode_offsets : ℕ → FrameOfReferenceVector → List ℤ
unfolding to_signed ◌+ℤ◌
decode_offsets half vector =
    map (λ offset. to_signed half (vector.anchor +ℤ pos offset)) vector.offsets
