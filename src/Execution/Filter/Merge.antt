-- ===== src/Execution/Filter/Merge.antt =====
-- The merges `intersectSorted` and `unionSorted` of src/execution/operators/filter.ts.
use query_engine.Prelude.{
  count_up, ℕ, zero, suc, ◌+◌, ◌≤◌, ◌≡◌, refl, sym, ap, ◌∙◌, Bool, true, false, ◌&&◌, ◌||◌, List,
  [], ◌∷◌, length, if◌then◌else◌, arith, Bool-cases, inl, inr,
}
use query_engine.Execution.Filter.{intersect_loop, intersect_sorted, union_loop, union_sorted, keep}

-- The list increases, from `low` on.
abbrev pub Ascending : ℕ → List ℕ → Type 0
Ascending low [] = Unit
Ascending low (i ∷ is) = (low ≤ i) × Ascending (i + 1) is

pub Ascending-weaken :
    (low high : ℕ) (is : List ℕ) → low ≤ high → Ascending high is → Ascending low is
Ascending-weaken low high [] h a = tt
Ascending-weaken low high (i ∷ is) h (le, a) = (omega arith, a)

pub Ascending-keep :
    (p : ℕ → Bool) (low : ℕ) (is : List ℕ) → Ascending low is → Ascending low (keep p is)
Ascending-keep p low [] a = tt
Ascending-keep p low (i ∷ is) (le, a) = elim (Bool-cases (p i)) [
  | inl e ↦ rw e (le, Ascending-keep p (i + 1) is a)
  | inr e ↦
      rw e (Ascending-weaken low (i + 1) (keep p is) (omega arith) (Ascending-keep p (i + 1) is a))
]

intersect_loop-left_nil : (fuel : ℕ) (b : List ℕ) → intersect_loop fuel [] b ≡ []
unfolding intersect_loop
intersect_loop-left_nil zero b = refl
intersect_loop-left_nil (suc fuel) b = refl

intersect_loop-right_nil : (fuel : ℕ) (a : List ℕ) → intersect_loop fuel a [] ≡ []
unfolding intersect_loop
intersect_loop-right_nil zero a = refl
intersect_loop-right_nil (suc fuel) [] = refl
intersect_loop-right_nil (suc fuel) (x ∷ a) = refl

intersect_loop-skip_left :
    (fuel x : ℕ) (a b : List ℕ)
    → Ascending (x + 1) b
    → intersect_loop (suc fuel) (x ∷ a) b ≡ intersect_loop fuel a b
unfolding intersect_loop
intersect_loop-skip_left fuel x a [] h = sym (intersect_loop-right_nil fuel a)
intersect_loop-skip_left fuel x a (y ∷ b) h = ground (arith, h.0)

intersect_loop-skip_right :
    (fuel y : ℕ) (a b : List ℕ)
    → Ascending (y + 1) a
    → intersect_loop (suc fuel) a (y ∷ b) ≡ intersect_loop fuel a b
unfolding intersect_loop
intersect_loop-skip_right fuel y [] b h = sym (intersect_loop-left_nil fuel b)
intersect_loop-skip_right fuel y (x ∷ a) b h = ground (arith, h.0)

intersect_loop-same :
    (fuel x : ℕ) (a b : List ℕ)
    → intersect_loop (suc fuel) (x ∷ a) (x ∷ b) ≡ x ∷ intersect_loop fuel a b
unfolding intersect_loop
intersect_loop-same fuel x a b = ground arith

intersect_loop-step :
    (b c : Bool) (i fuel : ℕ) (left right both : List ℕ)
    → Ascending (i + 1) left
    → Ascending (i + 1) right
    → ((f : ℕ) → length left + length right ≤ f → intersect_loop f left right ≡ both)
    → length (if b then i ∷ left else left) + length (if c then i ∷ right else right) ≤ fuel
    → intersect_loop fuel (if b then i ∷ left else left) (if c then i ∷ right else right)
      ≡ (if b && c then i ∷ both else both)
intersect_loop-step true true i zero left right both l r rest enough = absurd (omega arith)
intersect_loop-step true true i (suc fuel) left right both l r rest enough =
    intersect_loop-same fuel i left right ∙ ap (i ∷◌) (rest fuel (omega arith))
intersect_loop-step true false i zero left right both l r rest enough = absurd (omega arith)
intersect_loop-step true false i (suc fuel) left right both l r rest enough =
    intersect_loop-skip_left fuel i left right r ∙ rest fuel (omega arith)
intersect_loop-step false true i zero left right both l r rest enough = absurd (omega arith)
intersect_loop-step false true i (suc fuel) left right both l r rest enough =
    intersect_loop-skip_right fuel i left right l ∙ rest fuel (omega arith)
intersect_loop-step false false i fuel left right both l r rest enough = rest fuel enough

intersect_loop-keep :
    (p q : ℕ → Bool) (low fuel : ℕ) (is : List ℕ)
    → Ascending low is
    → length (keep p is) + length (keep q is) ≤ fuel
    → intersect_loop fuel (keep p is) (keep q is) ≡ keep (λ i. p i && q i) is
intersect_loop-keep p q low fuel [] a enough = intersect_loop-left_nil fuel []
intersect_loop-keep p q low fuel (i ∷ is) (le, a) enough =
    intersect_loop-step (p i) (q i) i fuel (keep p is) (keep q is) _ (Ascending-keep p (i + 1) is a)
      (Ascending-keep q (i + 1) is a) (λ f h. intersect_loop-keep p q (i + 1) f is a h) enough

-- Of an increasing list, the intersection of the rows that pass one test and of those that pass
-- another is the rows that pass both.
pub intersect_sorted-keep :
    (p q : ℕ → Bool) (low : ℕ) (is : List ℕ)
    → Ascending low is
    → intersect_sorted (keep p is) (keep q is) ≡ keep (λ i. p i && q i) is
unfolding intersect_sorted
intersect_sorted-keep p q low is a = intersect_loop-keep p q low _ is a (omega arith)

union_loop-left_nil : (fuel : ℕ) (b : List ℕ) → union_loop fuel [] b ≡ b
unfolding union_loop
union_loop-left_nil zero b = refl
union_loop-left_nil (suc fuel) b = refl

union_loop-right_nil : (fuel : ℕ) (a : List ℕ) → union_loop fuel a [] ≡ a
unfolding union_loop
union_loop-right_nil zero [] = refl
union_loop-right_nil zero (x ∷ a) = refl
union_loop-right_nil (suc fuel) [] = refl
union_loop-right_nil (suc fuel) (x ∷ a) = refl

union_loop-take_left :
    (fuel x : ℕ) (a b : List ℕ)
    → Ascending (x + 1) b
    → union_loop (suc fuel) (x ∷ a) b ≡ x ∷ union_loop fuel a b
unfolding union_loop
union_loop-take_left fuel x a [] h = ap (x ∷◌) (sym (union_loop-right_nil fuel a))
union_loop-take_left fuel x a (y ∷ b) h = ground (arith, h.0)

union_loop-take_right :
    (fuel y : ℕ) (a b : List ℕ)
    → Ascending (y + 1) a
    → union_loop (suc fuel) a (y ∷ b) ≡ y ∷ union_loop fuel a b
unfolding union_loop
union_loop-take_right fuel y [] b h = ap (y ∷◌) (sym (union_loop-left_nil fuel b))
union_loop-take_right fuel y (x ∷ a) b h = ground (arith, h.0)

union_loop-same :
    (fuel x : ℕ) (a b : List ℕ) → union_loop (suc fuel) (x ∷ a) (x ∷ b) ≡ x ∷ union_loop fuel a b
unfolding union_loop
union_loop-same fuel x a b = ground arith

union_loop-step :
    (b c : Bool) (i fuel : ℕ) (left right either : List ℕ)
    → Ascending (i + 1) left
    → Ascending (i + 1) right
    → ((f : ℕ) → length left + length right ≤ f → union_loop f left right ≡ either)
    → length (if b then i ∷ left else left) + length (if c then i ∷ right else right) ≤ fuel
    → union_loop fuel (if b then i ∷ left else left) (if c then i ∷ right else right)
      ≡ (if b || c then i ∷ either else either)
union_loop-step true true i zero left right either l r rest enough = absurd (omega arith)
union_loop-step true true i (suc fuel) left right either l r rest enough =
    union_loop-same fuel i left right ∙ ap (i ∷◌) (rest fuel (omega arith))
union_loop-step true false i zero left right either l r rest enough = absurd (omega arith)
union_loop-step true false i (suc fuel) left right either l r rest enough =
    union_loop-take_left fuel i left right r ∙ ap (i ∷◌) (rest fuel (omega arith))
union_loop-step false true i zero left right either l r rest enough = absurd (omega arith)
union_loop-step false true i (suc fuel) left right either l r rest enough =
    union_loop-take_right fuel i left right l ∙ ap (i ∷◌) (rest fuel (omega arith))
union_loop-step false false i fuel left right either l r rest enough = rest fuel enough

union_loop-keep :
    (p q : ℕ → Bool) (low fuel : ℕ) (is : List ℕ)
    → Ascending low is
    → length (keep p is) + length (keep q is) ≤ fuel
    → union_loop fuel (keep p is) (keep q is) ≡ keep (λ i. p i || q i) is
union_loop-keep p q low fuel [] a enough = union_loop-left_nil fuel []
union_loop-keep p q low fuel (i ∷ is) (le, a) enough =
    union_loop-step (p i) (q i) i fuel (keep p is) (keep q is) _ (Ascending-keep p (i + 1) is a)
      (Ascending-keep q (i + 1) is a) (λ f h. union_loop-keep p q (i + 1) f is a h) enough

-- Of an increasing list, the union of the rows that pass one test and of those that pass another is
-- the rows that pass either.
pub union_sorted-keep :
    (p q : ℕ → Bool) (low : ℕ) (is : List ℕ)
    → Ascending low is
    → union_sorted (keep p is) (keep q is) ≡ keep (λ i. p i || q i) is
unfolding union_sorted
union_sorted-keep p q low is a = union_loop-keep p q low _ is a (omega arith)

pub count_up-Ascending : (start n : ℕ) → Ascending start (count_up start n)
count_up-Ascending start zero = tt
count_up-Ascending start (suc n) = (omega arith, count_up-Ascending (start + 1) n)
