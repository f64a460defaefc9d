-- ===== src/Tests/Machine.antt =====
-- JavaScript's operators over numbers that are naturals, enough to run the model.
use Prim.Native.Nat.{compare, Ordering}
use Prim.Native.Char.{code}
use package.text.Mathlib.TextEquality.{codes_equal}
use query_engine.Prelude.{
  ℕ, ◌+◌, ◌-◌, ◌*◌, ◌/◌, ◌%◌, ◌≡◌, refl, ap, ap₂, ◌↔◌, String, Bool, true, false, not, ◌&&◌, ◌||◌,
  ltb, ◌==◌, str_eq, eq_iff, arith,
}
use query_engine.Prelude.Int.{ℤ, pos, negsuc, pos_part, ltb_ℤ}
use query_engine.Values.{Value, Js, null, number, bigint, text, boolean}
use query_engine.Values.Ops.{to_num, regular}
use query_engine.Pruning.Order.{Ordered, alike}
use query_engine.Pruning.Sound.Summary.{Converts}

-- Lexicographic order by code point.
abbrev text_before : String → String → Bool
text_before s String.[] = false
text_before String.[] (String.◌∷◌ d t) = true
text_before (String.◌∷◌ c s) (String.◌∷◌ d t) =
    ltb (code c) (code d) || ((code c == code d) && text_before s t)

text_before_irrefl : (s : String) → text_before s s ≡ false
text_before_irrefl String.[] = refl
text_before_irrefl (String.◌∷◌ c s) = ground (arith, text_before_irrefl s)

text_before_trans :
    (s t u : String) → text_before s t ≡ true → text_before t u ≡ true → text_before s u ≡ true
text_before_trans s t String.[] p q = cc
text_before_trans s String.[] (String.◌∷◌ e u) p q = cc
text_before_trans String.[] (String.◌∷◌ d t) (String.◌∷◌ e u) p q = refl
text_before_trans (String.◌∷◌ c s) (String.◌∷◌ d t) (String.◌∷◌ e u) p q =
    ground (arith, text_before_trans s t u)

same_code :
    (a b : ℕ) (p q : Bool)
    → (ltb a b || p) ≡ false
    → (ltb b a || q) ≡ false
    → compare a b ≡ Ordering.eq
same_code a b p q h k = ground arith

text_before_total : (s t : String) → text_before s t ≡ false → text_before t s ≡ false → s ≡ t
text_before_total String.[] String.[] p q = refl
text_before_total String.[] (String.◌∷◌ d t) p q = cc
text_before_total (String.◌∷◌ c s) String.[] p q = cc
text_before_total (String.◌∷◌ c s) (String.◌∷◌ d t) p q =
    ap₂ String.◌∷◌ (codes_equal c d (same_code (code c) (code d) _ _ p q))
      (text_before_total s t (ground arith) (ground arith))

abbrev lift : (ℕ → ℕ → ℕ) → Value ℕ → Value ℕ → Value ℕ
lift f (number a) (number b) = number (f a b)
lift f _ b = b

abbrev equal : Value ℕ → Value ℕ → Bool
equal null null = true
equal (number a) (number b) = a == b
equal (bigint (pos a)) (bigint (pos b)) = a == b
equal (bigint (negsuc a)) (bigint (negsuc b)) = a == b
equal (text a) (text b) = str_eq a b
equal (boolean true) (boolean true) = true
equal (boolean false) (boolean false) = true
equal _ _ = false

abbrev before : Value ℕ → Value ℕ → Bool
before (number a) (number b) = ltb a b
before (text a) (text b) = text_before a b
before (boolean false) (boolean true) = true
before _ _ = false

abbrev truthy_value : Value ℕ → Bool
truthy_value (boolean b) = b
truthy_value (number n) = ltb 0 n
truthy_value _ = false

abbrev text_of : Value ℕ → String
text_of (text s) = s
text_of _ = ""

abbrev pub nat_js : Js ℕ
nat_js = record {
  zero = 0;
  to_number = pos_part;
  less = before;
  less_equal = λ a b. not (before b a);
  strict_equal = equal;
  loose_equal = equal;
  plus = lift (λ a b. a + b);
  minus = lift (λ a b. a - b);
  times = lift (λ a b. a * b);
  divide = lift (λ a b. a / b);
  remainder = lift (λ a b. a % b);
  negate = λ v. v;
  as_number = λ v. v;
  truthy = truthy_value;
  to_text = text_of;
}

before_irrefl : (a : Value ℕ) → before a a ≡ false
before_irrefl (text s) = text_before_irrefl s
before_irrefl a = ground arith

before_trans : (a b c : Value ℕ) → before a b ≡ true → before b c ≡ true → before a c ≡ true
before_trans (text a) (text b) (text c) p q = text_before_trans a b c p q
before_trans a b c p q = ground arith

before_total : (a b : Value ℕ) → alike a b ≡ true → before a b ≡ false → before b a ≡ false → a ≡ b
unfolding alike
before_total (text a) (text b) k p q = ap text (text_before_total a b p q)
before_total a b k p q = ground arith

equal_iff : (a b : Value ℕ) → (equal a b ≡ true) ↔ (a ≡ b)
equal_iff (text a) (text b) = ground (arith, eq_iff a b)
equal_iff a b = ground arith

before_same :
    (a b c : Value ℕ)
    → alike a b ≡ true
    → alike a c ≡ true
    → equal a b ≡ true
    → (before a c ≡ before b c) × (before c a ≡ before c b)
before_same a b c k l e =
    let same = (equal_iff a b).0 e in (ap (λ v. before v c) same, ap (λ v. before c v) same)

equal_sym : (a b : Value ℕ) → equal a b ≡ equal b a
equal_sym a b = let (f, g) = equal_iff a b in let (f', g') = equal_iff b a in ground arith

equal-to_num : (a b : Value ℕ) → equal a b ≡ true → equal (to_num nat_js a) (to_num nat_js b) ≡ true
equal-to_num a b e =
    (equal_iff (to_num nat_js a) (to_num nat_js b)).1 (ap (to_num nat_js) ((equal_iff a b).0 e))

pub number_regular : (a : ℕ) → regular nat_js (number a) ≡ true
unfolding regular
number_regular a = ground arith

before_boolean : (a b : Bool) → before (boolean a) (boolean b) ≡ (not a && b)
before_boolean a b = ground arith

pub nat_js-Ordered : Ordered nat_js
nat_js-Ordered = record {
  less_irrefl = before_irrefl;
  less_trans = λ a b c k l p q. before_trans a b c p q;
  less_total = λ a b k r s p q. (equal_iff a b).1 (before_total a b k p q);
  same_less = before_same;
  same_sym = equal_sym;
  same_to_num = equal-to_num;
  less_equal_lem = λ a b k r s. refl;
  less_boolean = before_boolean;
}

pos_part_mono : (a b : ℤ) → ltb_ℤ a b ≡ false → ltb (pos_part a) (pos_part b) ≡ false
pos_part_mono a b h = ground arith

pub nat_js-Converts : Converts nat_js
nat_js-Converts = record {
  as_number_number = λ a. refl;
  to_text_text = λ s. refl;
  as_number_boolean = before_boolean;
  to_number_mono = pos_part_mono;
  to_number_regular = λ a. number_regular (pos_part a);
}

pub truthy_boolean : (b : Bool) → truthy_value (boolean b) ≡ b
truthy_boolean b = refl
