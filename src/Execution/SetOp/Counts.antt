-- ===== src/Execution/SetOp/Counts.antt =====
-- How many rows of each key src/execution/operators/set-op.ts keeps.
use query_engine.Prelude.{
  ℕ, zero, suc, ◌+◌, ◌-◌, ◌≡◌, refl, ap, ap₂, ◌∙◌, String, str_eq, eq_iff, Bool, true, false, ◌&&◌,
  List, [], ◌∷◌, ltb, ◌==◌, if◌then◌else◌, min, Bool-cases, inl, inr, arith,
}
use query_engine.Execution.Filter.{Column}
use query_engine.Execution.SetOp.{
  SetOpType, union, intersect, except, SetOpPolicy, Counts, put_count, SetOperator, count_right,
  round_keeps, after_round, filter_loop, keys_of,
}

abbrev pub count : String → List String → ℕ
count k [] = 0
count k (key ∷ keys) = let rest = count k keys in if str_eq key k then suc rest else rest

same_count : (counts : Counts) (key k : String) → str_eq key k ≡ true → counts key ≡ counts k
same_count counts key k e = ap counts ((eq_iff key k).0 e)

pub count_right-count :
    (keys : List String) (counts : Counts) (k : String)
    → count_right keys counts k ≡ counts k + count k keys
count_right-count [] counts k = omega arith
count_right-count (key ∷ keys) counts k = ground (
  arith,
  count_right-count keys (put_count key (counts key + 1) counts) k,
  same_count counts key k,
)

-- What happens to the counts of one key at each of its rows.
abbrev pub next_right : SetOpPolicy → ℕ → ℕ
next_right p r = if p.consumes_right && ltb 0 r then r - 1 else r

abbrev pub next_emitted : SetOpPolicy → ℕ → ℕ → ℕ
next_emitted p r e = if p.keep_row r e then e + 1 else e

-- The rows that are kept of `c` rows of one key, and its counts after them.
abbrev pub kept_of : SetOpPolicy → ℕ → ℕ → ℕ → ℕ
kept_of p zero r e = 0
kept_of p (suc c) r e =
    (if p.keep_row r e then 1 else 0) + kept_of p c (next_right p r) (next_emitted p r e)

abbrev pub right_of : SetOpPolicy → ℕ → ℕ → ℕ
right_of p zero r = r
right_of p (suc c) r = right_of p c (next_right p r)

abbrev pub emitted_of : SetOpPolicy → ℕ → ℕ → ℕ → ℕ
emitted_of p zero r e = e
emitted_of p (suc c) r e = emitted_of p c (next_right p r) (next_emitted p r e)

put_count-at :
    (b : Bool) (key k : String) (n : ℕ) (counts : Counts)
    → (if b then put_count key n counts else counts) k
      ≡ (if str_eq key k then (if b then n else counts k) else counts k)
put_count-at true key k n counts = refl
put_count-at false key k n counts = ground arith

abbrev spends : SetOperator → ℕ → Bool
spends s r = s.policy.consumes_right && ltb 0 r

round-right :
    (s : SetOperator) (key k : String)
    → (after_round s key).right_counts k
      ≡ (if str_eq key k then next_right s.policy (s.right_counts k) else s.right_counts k)
unfolding after_round
round-right s key k =
    let r = s.right_counts in
    let written = put_count-at (spends s (r key)) key k (r key - 1) r in
    elim (Bool-cases (str_eq key k)) [
      | inl e ↦ written ∙ rw e (ap (λ n. if spends s n then n - 1 else r k) (same_count r key k e))
      | inr e ↦ written ∙ rw e refl
    ]

round-emitted :
    (s : SetOperator) (key k : String)
    → (after_round s key).emitted_counts k ≡ (
        if str_eq key k
        then next_emitted s.policy (s.right_counts k) (s.emitted_counts k)
        else s.emitted_counts k)
unfolding after_round
round-emitted s key k =
    let n = s.emitted_counts in
    let written = put_count-at (round_keeps s key) key k (n key + 1) n in
    elim (Bool-cases (str_eq key k)) [
      | inl e ↦
          written
          ∙ rw e (
              ap₂ (λ r m. if s.policy.keep_row r m then m + 1 else n k)
                (same_count s.right_counts key k e) (same_count n key k e))
      | inr e ↦ written ∙ rw e refl
    ]

count-if :
    (b : Bool) (k key : String) (keys : List String)
    → count k (if b then key ∷ keys else keys) ≡ (if b && str_eq key k then 1 else 0) + count k keys
count-if true k key keys = ground arith
count-if false k key keys = omega arith

if-true : {A : Type 0} (x y : A) (b : Bool) → b ≡ true → (if b then x else y) ≡ x
if-true x y b e = rw e refl

if-false : {A : Type 0} (x y : A) (b : Bool) → b ≡ false → (if b then x else y) ≡ y
if-false x y b e = rw e refl

first_kept :
    (s : SetOperator) (key k : String)
    → str_eq key k ≡ true
    → ◌≡◌ {A = ℕ}
        (if round_keeps s key && str_eq key k then 1 else 0)
        (if s.policy.keep_row (s.right_counts k) (s.emitted_counts k) then 1 else 0)
first_kept s key k e =
    let same =
      ap₂ s.policy.keep_row (same_count s.right_counts key k e)
        (same_count s.emitted_counts key k e) in
    ground (arith, same)

zero_plus : (n : ℕ) → 0 + n ≡ n
zero_plus n = omega arith

none_kept : (b c : Bool) → c ≡ false → ◌≡◌ {A = ℕ} (if b && c then 1 else 0) 0
none_kept b c e = ground arith

module _ {F : Type 0} (row_key : List (Column F) → ℕ → String) (columns : List (Column F)) where
  keys_of-if :
      (b : Bool) (row : ℕ) (rows : List ℕ)
      → keys_of row_key columns (if b then row ∷ rows else rows) ≡ (
          if b
          then row_key columns row ∷ keys_of row_key columns rows
          else keys_of row_key columns rows)
  keys_of-if true row rows = refl
  keys_of-if false row rows = refl

  -- The loop treats the rows of one key as `kept_of`, `right_of` and `emitted_of` say.
  pub filter_loop-count :
      (rows : List ℕ) (s : SetOperator) (k : String)
      → let c = count k (keys_of row_key columns rows) in
        let found = filter_loop row_key columns rows s in
        (count k (keys_of row_key columns (found.0))
          ≡ kept_of s.policy c (s.right_counts k) (s.emitted_counts k))
        × (((found.1).right_counts k) ≡ right_of s.policy c (s.right_counts k))
        × (((found.1).emitted_counts k)
            ≡ emitted_of s.policy c (s.right_counts k) (s.emitted_counts k))
        × ((found.1).policy ≡ s.policy)
  unfolding filter_loop
  filter_loop-count [] s k = (refl, refl, refl, refl)
  filter_loop-count (row ∷ rows) s k =
      let key = row_key columns row in
      let (kept, right, emitted, same) = filter_loop-count rows (after_round s key) k in
      let found = (filter_loop row_key columns rows (after_round s key)).0 in
      let counted =
        ap (count k) (keys_of-if (round_keeps s key) row found)
        ∙ count-if (round_keeps s key) k key (keys_of row_key columns found) in
      let c = count k (keys_of row_key columns rows) in
      elim (Bool-cases (str_eq key k)) [
        | inl e ↦
            let r = round-right s key k ∙ if-true _ _ (str_eq key k) e in
            let m = round-emitted s key k ∙ if-true _ _ (str_eq key k) e in
            let kept_all = kept ∙ ap₂ (kept_of s.policy c) r m in
            rw e (
              counted ∙ ap₂ (λ a b. a + b) (first_kept s key k e) kept_all,
              right ∙ ap (right_of s.policy c) r,
              emitted ∙ ap₂ (emitted_of s.policy c) r m,
              same,
            )
        | inr e ↦
            let r = round-right s key k ∙ if-false _ _ (str_eq key k) e in
            let m = round-emitted s key k ∙ if-false _ _ (str_eq key k) e in
            rw e (
              counted
                  ∙ ap₂ (λ a b. a + b) (none_kept (round_keeps s key) (str_eq key k) e)
                      (kept ∙ ap₂ (kept_of s.policy c) r m)
                  ∙ zero_plus _,
              right ∙ ap (right_of s.policy c) r,
              emitted ∙ ap₂ (emitted_of s.policy c) r m,
              same,
            )
      ]

-- The multiplicities of SQL
abbrev pub multiplicity : SetOpType → Bool → ℕ → ℕ → ℕ
multiplicity union all l r = 0
multiplicity intersect true l r = min l r
multiplicity intersect false l r = if ltb 0 l && ltb 0 r then 1 else 0
multiplicity except true l r = l - r
multiplicity except false l r = if ltb 0 l && (r == 0) then 1 else 0

abbrev pub intersect_all : SetOpPolicy
intersect_all = record { keep_row = λ remaining emitted. ltb 0 remaining; consumes_right = true }

pub kept-intersect_all : (c r e : ℕ) → kept_of intersect_all c r e ≡ min c r
kept-intersect_all zero r e = ground arith
kept-intersect_all (suc c) r e =
    ground
      (arith, kept-intersect_all c (next_right intersect_all r) (next_emitted intersect_all r e))

abbrev pub intersect_distinct : SetOpPolicy
intersect_distinct = record {
  keep_row = λ remaining emitted. ltb 0 remaining && (emitted == 0);
  consumes_right = false;
}

pub kept-intersect_distinct :
    (c r e : ℕ)
    → kept_of intersect_distinct c r e ≡ (if ltb 0 c && (ltb 0 r && (e == 0)) then 1 else 0)
kept-intersect_distinct zero r e = ground arith
kept-intersect_distinct (suc c) r e = ground (
  arith,
  kept-intersect_distinct c (next_right intersect_distinct r) (next_emitted intersect_distinct r e),
)

abbrev pub except_all : SetOpPolicy
except_all = record { keep_row = λ remaining emitted. remaining == 0; consumes_right = true }

pub kept-except_all : (c r e : ℕ) → kept_of except_all c r e ≡ c - r
kept-except_all zero r e = ground arith
kept-except_all (suc c) r e =
    ground (arith, kept-except_all c (next_right except_all r) (next_emitted except_all r e))

abbrev pub except_distinct : SetOpPolicy
except_distinct = record {
  keep_row = λ remaining emitted. (remaining == 0) && (emitted == 0);
  consumes_right = false;
}

pub kept-except_distinct :
    (c r e : ℕ)
    → kept_of except_distinct c r e ≡ (if ltb 0 c && ((r == 0) && (e == 0)) then 1 else 0)
kept-except_distinct zero r e = ground arith
kept-except_distinct (suc c) r e = ground (
  arith,
  kept-except_distinct c (next_right except_distinct r) (next_emitted except_distinct r e),
)
