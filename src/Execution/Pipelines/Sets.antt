-- ===== src/Execution/Pipelines/Sets.antt =====
-- Sets of ids as lists in the order of insertion.
use query_engine.Prelude.{
  ℕ, ◌≡◌, refl, ap, Bool, true, false, not, ◌&&◌, ◌||◌, List, [], ◌∷◌, ◌++◌, ◌==◌, if◌then◌else◌,
  arith,
}

abbrev pub mem : ℕ → List ℕ → Bool
mem i [] = false
mem i (j ∷ js) = (i == j) || mem i js

abbrev pub insert : ℕ → List ℕ → List ℕ
insert i js = if mem i js then js else js ++ i ∷ []

abbrev pub select : (ℕ → Bool) → List ℕ → List ℕ
select p [] = []
select p (i ∷ is) = let rest = select p is in if p i then i ∷ rest else rest

abbrev pub delete : ℕ → List ℕ → List ℕ
delete i js = select (λ j. not (i == j)) js

abbrev pub is_nil : List ℕ → Bool
is_nil [] = true
is_nil (i ∷ is) = false

pub mem-append : (i : ℕ) (js ks : List ℕ) → mem i (js ++ ks) ≡ (mem i js || mem i ks)
mem-append i [] ks = refl
mem-append i (j ∷ js) ks = ground (arith, mem-append i js ks)

pub mem-insert : (i j : ℕ) (js : List ℕ) → mem i (insert j js) ≡ ((i == j) || mem i js)
mem-insert i j js = ground (arith, mem-append i js (j ∷ []))

same_test : (p : ℕ → Bool) (i j : ℕ) → i ≡ j → p i ≡ p j
same_test p i j e = ap p e

pub mem-select : (p : ℕ → Bool) (i : ℕ) (js : List ℕ) → mem i (select p js) ≡ (mem i js && p i)
mem-select p i [] = refl
mem-select p i (j ∷ js) = ground (arith, mem-select p i js, same_test p i j)

pub mem-delete : (i j : ℕ) (js : List ℕ) → mem i (delete j js) ≡ (mem i js && not (j == i))
mem-delete i j js = mem-select (λ k. not (j == k)) i js

pub is_nil-mem : (js : List ℕ) → ((i : ℕ) → mem i js ≡ false) → js ≡ []
is_nil-mem [] h = refl
is_nil-mem (j ∷ js) h = ground (arith, h j)
