-- ===== src/Parser/Lexer/Progress.antt =====
-- What src/parser/lexer.ts leaves of its input.
use query_engine.Prelude.{
  ℕ, zero, suc, ◌+◌, ◌-◌, ◌≤◌, ◌<◌, ◌≡◌, refl, Bool, true, false, ◌&&◌, ◌||◌, Option, none, some,
  [], ◌∷◌, length, ◌==◌, if◌then◌else◌, arith, Bool-cases, inl, inr,
}
use query_engine.Parser.Lexer.Tokens.{Units, TokenType}
use query_engine.Parser.Lexer.Blanks.{
  is_blank, is_digit, is_ident_start, is_ident_part, starts, skip_line, closed, skip_block,
  BlankStep, go_on, stop, unclosed, after_block, blank_step, Skipped, skipped, unclosed_at,
  skip_out_of_fuel, follow, skip_blank,
}
use query_engine.Parser.Lexer.Scans.{
  read_quoted, prepend, string_scan, identifier_scan, span, placeholder_scan, read_fraction,
  read_sign, exponent_of, read_exponent, number_scan, word_scan, ident_scan, Scan, scanned, failed,
  single_scan, single_symbol, alone_scan, double_symbol, double_scan, symbol_scan, scan,
}

skip_line-le : (u : Units) → length (skip_line u) ≤ length u
skip_line-le [] = omega arith
skip_line-le (c ∷ cs) = ground (arith, skip_line-le cs)

-- At most `n` units are left, if any are said to be.
abbrev LeavesUpTo : ℕ → Option Units → Type 0
LeavesUpTo n none = Unit
LeavesUpTo n (some rest) = length rest ≤ n

LeavesUpTo-weaken : (m n : ℕ) (o : Option Units) → m ≤ n → LeavesUpTo m o → LeavesUpTo n o
LeavesUpTo-weaken m n none h l = tt
LeavesUpTo-weaken m n (some rest) h l = omega arith

closed-LeavesUpTo :
    (depth : ℕ) (rest : Units) (o : Option Units)
    → LeavesUpTo (length rest) o
    → LeavesUpTo (length rest) (closed depth rest o)
closed-LeavesUpTo zero rest o l = omega arith
closed-LeavesUpTo (suc depth) rest o l = l

skip_block-LeavesUpTo : (depth : ℕ) (u : Units) → LeavesUpTo (length u) (skip_block depth u)
unfolding skip_block
skip_block-LeavesUpTo depth [] = tt
skip_block-LeavesUpTo depth (c ∷ []) = tt
skip_block-LeavesUpTo depth (c ∷ d ∷ ds) = elim (Bool-cases ((c == b'/') && (d == b'*'))) [
  | inl e ↦
      rw e (LeavesUpTo-weaken (length ds) _ _ (omega arith) (skip_block-LeavesUpTo (depth + 1) ds))
  | inr e ↦ elim (Bool-cases ((c == b'*') && (d == b'/'))) [
    | inl f ↦
        rw (e, f)
          (LeavesUpTo-weaken (length ds) _ _ (omega arith)
            (closed-LeavesUpTo (depth - 1) ds _ (skip_block-LeavesUpTo (depth - 1) ds)))
    | inr f ↦
        rw (e, f)
          (LeavesUpTo-weaken (length (d ∷ ds)) _ _ (omega arith)
            (skip_block-LeavesUpTo depth (d ∷ ds)))
  ]
]

-- A step that goes on has read a unit.
abbrev Steps : Units → BlankStep → Type 0
Steps here (go_on rest) = length rest < length here
Steps here stop = Unit
Steps here unclosed = 1 ≤ length here

skip_block-lt :
    (c : ℕ) (cs : Units)
    → ((c == b'/') && starts b'*' cs) ≡ true
    → LeavesUpTo (length cs) (skip_block 0 (c ∷ cs))
unfolding skip_block
skip_block-lt c [] e = tt
skip_block-lt c (d ∷ ds) e =
    rw e
      (LeavesUpTo-weaken (length ds) (length (d ∷ ds)) _ (omega arith) (skip_block-LeavesUpTo 1 ds))

after_block-Steps :
    (c : ℕ) (cs : Units) (o : Option Units)
    → LeavesUpTo (length cs) o
    → Steps (c ∷ cs) (after_block o)
after_block-Steps c cs none l = omega arith
after_block-Steps c cs (some rest) l = omega arith

blank_step-Steps : (here : Units) → Steps here (blank_step here)
unfolding blank_step
blank_step-Steps [] = tt
blank_step-Steps (c ∷ cs) = elim (Bool-cases (is_blank c)) [
  | inl e ↦ rw e (omega arith)
  | inr e ↦ elim (Bool-cases ((c == b'-') && starts b'-' cs)) [
    | inl f ↦ rw (e, f) (omega (arith, skip_line-le cs))
    | inr f ↦ elim (Bool-cases ((c == b'/') && starts b'*' cs)) [
      | inl g ↦ rw (e, f, g) (after_block-Steps c cs _ (skip_block-lt c cs g))
      | inr g ↦ rw (e, f, g) tt
    ]
  ]
]

-- Skipping ends, with no more than there was, and with a unit left if it fails.
abbrev pub Skips : ℕ → Skipped → Type 0
Skips n (skipped rest) = length rest ≤ n
Skips n (unclosed_at rest) = (1 ≤ length rest) × (length rest ≤ n)
Skips n skip_out_of_fuel = ⊥

Skips-weaken : (m n : ℕ) (s : Skipped) → m ≤ n → Skips m s → Skips n s
Skips-weaken m n (skipped rest) h l = omega arith
Skips-weaken m n (unclosed_at rest) h l = (l.0, omega arith)
Skips-weaken m n skip_out_of_fuel h l = l

follow-Skips :
    (fuel : ℕ) (here : Units) (s : BlankStep)
    → length here < suc fuel
    → Steps here s
    → ((rest : Units) → length rest < fuel → Skips (length rest) (skip_blank fuel rest))
    → Skips (length here) (follow s here (skip_blank fuel))
follow-Skips fuel here (go_on rest) h l skip =
    Skips-weaken (length rest) (length here) _ (omega arith) (skip rest (omega arith))
follow-Skips fuel here stop h l skip = omega arith
follow-Skips fuel here unclosed h l skip = (l, omega arith)

pub skip_blank-Skips :
    (fuel : ℕ) (here : Units) → length here < fuel → Skips (length here) (skip_blank fuel here)
unfolding skip_blank
skip_blank-Skips zero here h = absurd (omega arith)
skip_blank-Skips (suc fuel) here h =
    follow-Skips fuel here (blank_step here) (omega arith) (blank_step-Steps here)
      (λ rest l. skip_blank-Skips fuel rest l)

-- What a scan leaves
abbrev pub Leaves : ℕ → Scan → Type 0
Leaves n (scanned kind value quoted rest) = length rest ≤ n
Leaves n (failed why) = Unit

abbrev PairUpTo : ℕ → Option (Units × Units) → Type 0
PairUpTo n none = Unit
PairUpTo n (some (value, rest)) = length rest ≤ n

prepend-PairUpTo :
    (c m n : ℕ) (o : Option (Units × Units)) → m ≤ n → PairUpTo m o → PairUpTo n (prepend c o)
prepend-PairUpTo c m n none h l = tt
prepend-PairUpTo c m n (some (value, rest)) h l = omega arith

read_quoted-PairUpTo : (quote : ℕ) (u : Units) → PairUpTo (length u) (read_quoted quote u)
unfolding read_quoted
read_quoted-PairUpTo quote [] = tt
read_quoted-PairUpTo quote (c ∷ []) = ground arith
read_quoted-PairUpTo quote (c ∷ d ∷ ds) = elim (Bool-cases (c == quote)) [
  | inl e ↦ elim (Bool-cases (d == quote)) [
    | inl f ↦
        rw (e, f)
          (prepend-PairUpTo quote (length ds) _ _ (omega arith) (read_quoted-PairUpTo quote ds))
    | inr f ↦ rw (e, f) (omega arith)
  ]
  | inr e ↦
      rw e (
        prepend-PairUpTo c (length (d ∷ ds)) _ _ (omega arith)
          (read_quoted-PairUpTo quote (d ∷ ds)))
]

string_scan-Leaves : (n : ℕ) (o : Option (Units × Units)) → PairUpTo n o → Leaves n (string_scan o)
string_scan-Leaves n none l = tt
string_scan-Leaves n (some (value, rest)) l = l

identifier_scan-Leaves :
    (n : ℕ) (o : Option (Units × Units)) → PairUpTo n o → Leaves n (identifier_scan o)
identifier_scan-Leaves n none l = tt
identifier_scan-Leaves n (some ([], rest)) l = tt
identifier_scan-Leaves n (some (c ∷ value, rest)) l = l

span-le : (p : ℕ → Bool) (u : Units) → length (span p u).1 ≤ length u
unfolding span
span-le p [] = omega arith
span-le p (c ∷ cs) = ground (arith, span-le p cs)

span-lt : (p : ℕ → Bool) (c : ℕ) (cs : Units) → p c ≡ true → length (span p (c ∷ cs)).1 ≤ length cs
unfolding span
span-lt p c cs h = rw h (span-le p cs)

placeholder_scan-Leaves :
    (n : ℕ) (s : Units × Units) → length s.1 ≤ n → Leaves n (placeholder_scan s)
placeholder_scan-Leaves n ([], rest) l = tt
placeholder_scan-Leaves n (c ∷ digits, rest) l = l

read_fraction-le : (u : Units) → length (read_fraction u).1 ≤ length u
read_fraction-le [] = omega arith
read_fraction-le (c ∷ cs) = ground (arith, span-le is_digit cs)

read_sign-le : (u : Units) → length (read_sign u).1 ≤ length u
read_sign-le [] = omega arith
read_sign-le (c ∷ cs) = ground arith

exponent_of-le :
    (marker : ℕ) (sign saved : Units) (s : Units × Units)
    → length s.1 ≤ length saved
    → length (exponent_of marker sign saved s).1 ≤ length saved
exponent_of-le marker sign saved ([], rest) h = omega arith
exponent_of-le marker sign saved (c ∷ digits, rest) h = h

read_exponent-le : (u : Units) → length (read_exponent u).1 ≤ length u
unfolding read_exponent
read_exponent-le [] = omega arith
read_exponent-le (c ∷ cs) = elim (Bool-cases ((c == b'e') || (c == b'E'))) [
  | inl e ↦ rw e (
      exponent_of-le c _ (c ∷ cs) (span is_digit (read_sign cs).1)
        (omega (arith, read_sign-le cs, span-le is_digit (read_sign cs).1)))
  | inr e ↦ rw e (omega arith)
]

number_scan-Leaves :
    (c : ℕ) (cs : Units) → is_digit c ≡ true → Leaves (length cs) (number_scan (c ∷ cs))
unfolding number_scan
number_scan-Leaves c cs h =
    let whole = span is_digit (c ∷ cs) in
    let fraction = read_fraction whole.1 in
    omega (arith, span-lt is_digit c cs h, read_fraction-le whole.1, read_exponent-le fraction.1)

word_scan-Leaves :
    (n : ℕ) (kind : Option TokenType) (word rest : Units)
    → length rest ≤ n
    → Leaves n (word_scan kind word rest)
word_scan-Leaves n none word rest h = h
word_scan-Leaves n (some kind) word rest h = h

ident_scan-Leaves :
    (c : ℕ) (cs : Units) → is_ident_part c ≡ true → Leaves (length cs) (ident_scan (c ∷ cs))
unfolding ident_scan
ident_scan-Leaves c cs h = word_scan-Leaves (length cs) _ _ _ (span-lt is_ident_part c cs h)

single_scan-Leaves :
    (c : ℕ) (kind : Option TokenType) (rest : Units)
    → Leaves (length rest) (single_scan c kind rest)
single_scan-Leaves c none rest = tt
single_scan-Leaves c (some kind) rest = omega arith

alone_scan-Leaves : (c : ℕ) (rest : Units) → Leaves (length rest) (alone_scan c rest)
unfolding alone_scan
alone_scan-Leaves c rest = ground (arith, single_scan-Leaves c (single_symbol c) rest)

double_scan-Leaves :
    (c d : ℕ) (kind : Option TokenType) (rest : Units)
    → Leaves (length (d ∷ rest)) (double_scan c d kind rest)
double_scan-Leaves c d none rest = alone_scan-Leaves c (d ∷ rest)
double_scan-Leaves c d (some kind) rest = omega arith

symbol_scan-Leaves : (c : ℕ) (rest : Units) → Leaves (length rest) (symbol_scan c rest)
unfolding symbol_scan
symbol_scan-Leaves c [] = alone_scan-Leaves c []
symbol_scan-Leaves c (d ∷ ds) = double_scan-Leaves c d (double_symbol c d) ds

ident_start-part : (c : ℕ) → is_ident_start c ≡ true → is_ident_part c ≡ true
ident_start-part c h = rw h refl

Leaves-if :
    (n : ℕ) (b : Bool) (s t : Scan)
    → (b ≡ true → Leaves n s)
    → (b ≡ false → Leaves n t)
    → Leaves n (if b then s else t)
Leaves-if n true s t f g = f refl
Leaves-if n false s t f g = g refl

-- A token takes the unit that it starts with.
pub scan-Leaves : (c : ℕ) (cs : Units) → Leaves (length cs) (scan c cs)
unfolding scan
scan-Leaves c cs =
    let n = length cs in
    Leaves-if n (c == b'\'') _ _ (λ e. string_scan-Leaves n _ (read_quoted-PairUpTo b'\'' cs))
      λ e.
        Leaves-if n (c == b'"') _ _ (λ e. identifier_scan-Leaves n _ (read_quoted-PairUpTo b'"' cs))
          λ e.
            Leaves-if n (c == b'$') _ _ (λ e. placeholder_scan-Leaves n _ (span-le is_digit cs))
              λ e.
                Leaves-if n (is_digit c) _ _ (λ e. number_scan-Leaves c cs e)
                  λ e.
                    Leaves-if n (is_ident_start c) _ _
                      (λ e. ident_scan-Leaves c cs (ident_start-part c e))
                      (λ e. symbol_scan-Leaves c cs)
