-- ===== src/Encoding/FrameOfReference/RoundTrip.antt =====
-- Encoding and decoding by src/storage/encoding/frame-of-reference.ts.
use query_engine.Prelude.{
  ℕ, ◌+◌, ◌-◌, ◌*◌, ◌<◌, ◌≡◌, refl, sym, subst, ap, ap₂, ◌∙◌, true, false, some, List, [], ◌∷◌, map,
  All, lt→ltb, if◌then◌else◌, arith, Bool-cases, inl, inr,
}
use mathlib.Core.Option.{some-injective}
use native.Mathlib.Nat.{mod-eq_of_lt}
use query_engine.Prelude.Int.{ℤ, pos, negsuc, pos_part, neg_part, ◌+ℤ◌, ◌-ℤ◌, ◌≤ℤ◌, ltb_ℤ}
use query_engine.Encoding.FrameOfReference.{
  OffsetContainer, offset_containers, first_container, container_for_range, to_unsigned, to_signed,
  IntegerStats, scan_from, scan_bounds, FrameOfReferenceVector, encode_in, encode, decode_offsets,
}

abbrev pub InType : ℕ → ℤ → Type 0
InType half (pos n) = n < half
InType half (negsuc n) = n < half

abbrev Between : IntegerStats → ℤ → Type 0
Between s v = (s.min_value ≤ℤ v) × (v ≤ℤ s.max_value)

≤ℤ_trans : (a b c : ℤ) → a ≤ℤ b → b ≤ℤ c → a ≤ℤ c
≤ℤ_trans a b c p q = ground arith

scan_from-wider :
    (lo hi : ℤ) (vs : List ℤ)
    → ((scan_from lo hi vs).min_value ≤ℤ lo) × (hi ≤ℤ (scan_from lo hi vs).max_value)
unfolding scan_from
scan_from-wider lo hi [] = (omega arith, omega arith)
scan_from-wider lo hi (v ∷ vs) =
    ground (arith, scan_from-wider v hi vs, scan_from-wider lo v vs, scan_from-wider lo hi vs)

module _ (lo hi v : ℤ) (vs : List ℤ) where
  scan_from-lower : ltb_ℤ v lo ≡ true → scan_from lo hi (v ∷ vs) ≡ scan_from v hi vs
  unfolding scan_from
  scan_from-lower e = rw e refl

  scan_from-higher :
      ltb_ℤ v lo ≡ false → ltb_ℤ hi v ≡ true → scan_from lo hi (v ∷ vs) ≡ scan_from lo v vs
  unfolding scan_from
  scan_from-higher e f = rw (e, f) refl

  scan_from-within :
      ltb_ℤ v lo ≡ false → ltb_ℤ hi v ≡ false → scan_from lo hi (v ∷ vs) ≡ scan_from lo hi vs
  unfolding scan_from
  scan_from-within e f = rw (e, f) refl

scan_from-Between : (lo hi : ℤ) (vs : List ℤ) → lo ≤ℤ hi → All (Between (scan_from lo hi vs)) vs
scan_from-Between lo hi [] h = tt
scan_from-Between lo hi (v ∷ vs) h = elim (Bool-cases (ltb_ℤ v lo)) [
  | inl e ↦
      subst (λ s. All (Between s) (v ∷ vs)) (sym (scan_from-lower lo hi v vs e))
        (at_head v hi (ground arith) (ground arith), scan_from-Between v hi vs (ground arith))
  | inr e ↦ elim (Bool-cases (ltb_ℤ hi v)) [
    | inl f ↦
        subst (λ s. All (Between s) (v ∷ vs)) (sym (scan_from-higher lo hi v vs e f))
          (at_head lo v (ground arith) (ground arith), scan_from-Between lo v vs (ground arith))
    | inr f ↦
        subst (λ s. All (Between s) (v ∷ vs)) (sym (scan_from-within lo hi v vs e f))
          (at_head lo hi (ground arith) (ground arith), scan_from-Between lo hi vs h)
  ]
]
  where
    at_head : (a b : ℤ) → a ≤ℤ v → v ≤ℤ b → Between (scan_from a b vs) v
    at_head a b p q = (
      ≤ℤ_trans (scan_from a b vs).min_value a v (scan_from-wider a b vs).0 p,
      ≤ℤ_trans v b (scan_from a b vs).max_value q (scan_from-wider a b vs).1,
    )

to_unsigned-small : (limit n : ℕ) → n < limit → to_unsigned limit (pos n) ≡ n
unfolding to_unsigned
to_unsigned-small limit n h = mod-eq_of_lt h

to_signed-InType : (half : ℕ) (v : ℤ) → InType half v → to_signed half v ≡ v
unfolding to_signed to_unsigned
to_signed-InType half (pos n) h =
    rw (mod-eq_of_lt {n = n} {m = half * 2} (omega arith)) (rw (lt→ltb n half h) refl)
to_signed-InType half (negsuc n) h =
    rw (mod-eq_of_lt {n = n} {m = half * 2} (omega arith)) (ground arith)

distance : (anchor v : ℤ) → anchor ≤ℤ v → (n : ℕ) × (v -ℤ anchor ≡ pos n) × (anchor +ℤ pos n ≡ v)
unfolding ◌-ℤ◌ ◌+ℤ◌
distance anchor v h =
    (pos_part v + neg_part anchor - (neg_part v + pos_part anchor), ground arith, ground arith)

-- A value between the anchor and less than `limit` above it comes back.
restored :
    (half limit : ℕ) (anchor v : ℤ)
    → InType half v
    → anchor ≤ℤ v
    → ltb_ℤ (v -ℤ anchor) (pos limit) ≡ true
    → to_signed half (anchor +ℤ pos (to_unsigned limit (v -ℤ anchor))) ≡ v
restored half limit anchor v i le small =
    let (n, apart, back) = distance anchor v le in
    let below = subst (λ d. ltb_ℤ d (pos limit) ≡ true) apart small in
    ap (λ d. to_signed half (anchor +ℤ pos (to_unsigned limit d))) apart
    ∙ ap (λ k. to_signed half (anchor +ℤ pos k)) (to_unsigned-small limit n (ground arith))
    ∙ ap (to_signed half) back
    ∙ to_signed-InType half v i

closer :
    (limit : ℕ) (anchor v top : ℤ)
    → v ≤ℤ top
    → ltb_ℤ (top -ℤ anchor) (pos limit) ≡ true
    → ltb_ℤ (v -ℤ anchor) (pos limit) ≡ true
unfolding ◌-ℤ◌
closer limit anchor v top h small = ground arith

map-restored :
    (half limit : ℕ) (s : IntegerStats) (vs : List ℤ)
    → ltb_ℤ (s.max_value -ℤ s.min_value) (pos limit) ≡ true
    → All (InType half) vs
    → All (Between s) vs
    → map
        (λ k. to_signed half (s.min_value +ℤ pos k))
        (map (λ v. to_unsigned limit (v -ℤ s.min_value)) vs)
      ≡ vs
map-restored half limit s [] small i b = refl
map-restored half limit s (v ∷ vs) small (i, is) (b, bs) =
    ap₂ ◌∷◌
      (restored half limit s.min_value v i b.0 (closer limit s.min_value v s.max_value b.1 small))
      (map-restored half limit s vs small is bs)

-- Every array of a list holds what is below its container's limit.
abbrev Fits : List OffsetContainer → Type 0
Fits = All (λ c. c.modulus ≡ c.limit)

first_container-Fits :
    (cs : List OffsetContainer) (range : ℤ) (c : OffsetContainer)
    → Fits cs
    → first_container cs range ≡ some c
    → c.modulus ≡ c.limit
unfolding first_container
first_container-Fits [] range c fits h = cc
first_container-Fits (d ∷ ds) range c (fit, fits) h =
    elim (Bool-cases (ltb_ℤ range (pos d.limit))) [
      | inl e ↦
          subst (λ x. x.modulus ≡ x.limit)
            (some-injective _ _
              (subst (λ b. (if b then some d else first_container ds range) ≡ some c) e h))
            fit
      | inr e ↦
          first_container-Fits ds range c fits
            (subst (λ b. (if b then some d else first_container ds range) ≡ some c) e h)
    ]

first_container-holds :
    (cs : List OffsetContainer) (range : ℤ) (c : OffsetContainer)
    → first_container cs range ≡ some c
    → ltb_ℤ range (pos c.limit) ≡ true
unfolding first_container
first_container-holds [] range c h = cc
first_container-holds (d ∷ ds) range c h = elim (Bool-cases (ltb_ℤ range (pos d.limit))) [
  | inl e ↦
      subst (λ x. ltb_ℤ range (pos x.limit) ≡ true)
        (some-injective _ _
          (subst (λ b. (if b then some d else first_container ds range) ≡ some c) e h))
        e
  | inr e ↦
      first_container-holds ds range c
        (subst (λ b. (if b then some d else first_container ds range) ≡ some c) e h)
]

container_for_range-some :
    (range : ℤ)
    → ltb_ℤ range (pos 4294967296) ≡ true
    → (c : OffsetContainer) × (container_for_range range ≡ some c)
unfolding container_for_range first_container
container_for_range-some range h = elim (Bool-cases (ltb_ℤ range (pos 256))) [
  | inl e ↦ (record { width = 1; limit = 256; modulus = 256 }, rw e refl)
  | inr e ↦ elim (Bool-cases (ltb_ℤ range (pos 65536))) [
    | inl f ↦ (record { width = 2; limit = 65536; modulus = 65536 }, rw (e, f) refl)
    | inr f ↦ (record { width = 4; limit = 4294967296; modulus = 4294967296 }, rw (e, f, h) refl)
  ]
]

-- If the values of a column that is not empty fit its type, and the largest and the smallest that the
-- scan finds are less than 2^32 apart, then encoding does not throw, and decoding gives the column.
pub decode_offsets-encode :
    (half : ℕ) (v : ℤ) (vs : List ℤ)
    → All (InType half) (v ∷ vs)
    → ltb_ℤ ((scan_bounds v vs).max_value -ℤ (scan_bounds v vs).min_value) (pos 4294967296) ≡ true
    → (vector : FrameOfReferenceVector) × (encode (scan_bounds v vs) (v ∷ vs) ≡ some vector)
      × (decode_offsets half vector ≡ v ∷ vs)
unfolding encode encode_in decode_offsets scan_bounds
decode_offsets-encode half v vs typed narrow =
    let s = scan_bounds v vs in
    let (c, found) = container_for_range-some (s.max_value -ℤ s.min_value) narrow in
    let wider = scan_from-wider v v vs in
    (
      _,
      ap (encode_in s (v ∷ vs)) found,
      map-restored half c.modulus s (v ∷ vs)
          (subst (λ m. ltb_ℤ (s.max_value -ℤ s.min_value) (pos m) ≡ true)
            (sym (
              first_container-Fits offset_containers (s.max_value -ℤ s.min_value) c
                (refl, (refl, (refl, tt))) found))
            (first_container-holds offset_containers (s.max_value -ℤ s.min_value) c found))
          typed (wider, scan_from-Between v v vs (omega arith)),
    )
