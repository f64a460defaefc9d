-- ===== src/Utils/Words.antt =====
-- Words of 32 bits, as JavaScript's bitwise operators read them: by their bits, from the lowest on.
use query_engine.Prelude.{
  ℕ, zero, suc, ◌+◌, ◌*◌, ◌/◌, ◌%◌, ◌<◌, ◌≡◌, refl, ap, ◌∙◌, Bool, true, false, not, ◌&&◌, ◌||◌,
  ◌==◌, ==_iff, ltb, if◌then◌else◌, arith, Bool-cases, inl, inr,
}

abbrev pub bit : ℕ → ℕ → Bool
bit n zero = n % 2 == 1
bit n (suc i) = bit (n / 2) i

unfoldable pub of_bits : ℕ → (ℕ → Bool) → ℕ
of_bits zero f = 0
of_bits (suc w) f = (if f 0 then 1 else 0) + 2 * of_bits w (λ i. f (suc i))

unfoldable pub word_or : ℕ → ℕ → ℕ
word_or a b = of_bits 32 (λ i. bit a i || bit b i)

unfoldable pub word_and : ℕ → ℕ → ℕ
word_and a b = of_bits 32 (λ i. bit a i && bit b i)

unfoldable pub word_xor : ℕ → ℕ → ℕ
word_xor a b = of_bits 32 (λ i. (if bit a i then not (bit b i) else bit b i))

unfoldable pub word_not : ℕ → ℕ
word_not a = of_bits 32 (λ i. not (bit a i))

-- `1 << i`
unfoldable pub one_at : ℕ → ℕ
one_at i = of_bits 32 (λ j. j == i)

-- `(1 << i) - 1`
unfoldable pub ones_below : ℕ → ℕ
ones_below i = of_bits 32 (λ j. ltb j i)

pub bit-of_bits : (w : ℕ) (f : ℕ → Bool) (i : ℕ) → i < w → bit (of_bits w f) i ≡ f i
unfolding of_bits
bit-of_bits zero f i h = absurd (omega arith)
bit-of_bits (suc w) f zero h = ground arith
bit-of_bits (suc w) f (suc i) h =
    let half : of_bits (suc w) f / 2 ≡ of_bits w (λ j. f (suc j)) = ground arith in
    ap (λ n. bit n i) half ∙ bit-of_bits w (λ j. f (suc j)) i (omega arith)

bit-zero : (i : ℕ) → bit 0 i ≡ false
bit-zero zero = refl
bit-zero (suc i) = bit-zero i

of_bits-zero : (w : ℕ) (f : ℕ → Bool) → ((i : ℕ) → i < w → f i ≡ false) → of_bits w f ≡ 0
unfolding of_bits
of_bits-zero zero f h = refl
of_bits-zero (suc w) f h =
    let rest = of_bits-zero w (λ i. f (suc i)) (λ i l. h (suc i) (omega arith)) in
    ground (arith, h 0 (omega arith))

module _ (i : ℕ) (h : i < 32) where
  pub bit-word_or : (a b : ℕ) → bit (word_or a b) i ≡ (bit a i || bit b i)
  unfolding word_or
  bit-word_or a b = bit-of_bits 32 (λ j. bit a j || bit b j) i h

  pub bit-word_and : (a b : ℕ) → bit (word_and a b) i ≡ (bit a i && bit b i)
  unfolding word_and
  bit-word_and a b = bit-of_bits 32 (λ j. bit a j && bit b j) i h

  pub bit-word_not : (a : ℕ) → bit (word_not a) i ≡ not (bit a i)
  unfolding word_not
  bit-word_not a = bit-of_bits 32 (λ j. not (bit a j)) i h

  pub bit-one_at : (k : ℕ) → bit (one_at k) i ≡ (i == k)
  unfolding one_at
  bit-one_at k = bit-of_bits 32 (λ j. j == k) i h

  pub bit-ones_below : (k : ℕ) → bit (ones_below k) i ≡ ltb i k
  unfolding ones_below
  bit-ones_below k = bit-of_bits 32 (λ j. ltb j k) i h

same_bit : (a j i : ℕ) → (j == i) ≡ true → bit a j ≡ bit a i
same_bit a j i e = ap (bit a) ((==_iff j i).0 e)

word_and-absent : (a i : ℕ) → bit a i ≡ false → word_and a (one_at i) ≡ 0
unfolding word_and
word_and-absent a i e =
    of_bits-zero 32 (λ j. bit a j && bit (one_at i) j)
      λ j l. ground (arith, bit-one_at j l i, same_bit a j i)

zero_bit : (n i : ℕ) → n ≡ 0 → bit n i ≡ false
zero_bit n i e = ap (λ m. bit m i) e ∙ bit-zero i

-- The test `(a & (1 << i)) === 0`
pub word_and-one_at : (a i : ℕ) → i < 32 → (word_and a (one_at i) == 0) ≡ not (bit a i)
word_and-one_at a i h = elim (Bool-cases (bit a i)) [
  | inl e ↦
      let seen = bit-word_and i h a (one_at i) in
      let here = bit-one_at i h i in
      ground (arith, seen, here, ==_iff i i, zero_bit (word_and a (one_at i)) i)
  | inr e ↦ ground (arith, word_and-absent a i e)
]
