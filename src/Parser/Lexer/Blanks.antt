-- ===== src/Parser/Lexer/Blanks.antt =====
-- Blanks and comments of src/parser/lexer.ts, and its tests of units.
use query_engine.Prelude.{
  ℕ, zero, suc, ◌+◌, ◌-◌, Bool, false, ◌&&◌, ◌||◌, Option, none, some, [], ◌∷◌, leb, ◌==◌,
  if◌then◌else◌,
}
use query_engine.Parser.Lexer.Tokens.{Units}

pub data LexReason : Type 0 where
  unterminated_comment empty_identifier unterminated_identifier : LexReason
  unterminated_string missing_parameter_number unexpected_character : LexReason

abbrev pub is_digit : ℕ → Bool
is_digit c = leb b'0' c && leb c b'9'

abbrev pub is_ident_start : ℕ → Bool
is_ident_start c = (leb b'a' c && leb c b'z') || (leb b'A' c && leb c b'Z') || (c == b'_')

abbrev pub is_ident_part : ℕ → Bool
is_ident_part c = is_ident_start c || is_digit c

abbrev pub is_blank : ℕ → Bool
is_blank c = (c == b' ') || (c == b'\t') || (c == b'\n') || (c == b'\r')

abbrev pub starts : ℕ → Units → Bool
starts c [] = false
starts c (d ∷ ds) = d == c

-- To the end of the line
abbrev pub skip_line : Units → Units
skip_line [] = []
skip_line (c ∷ cs) = let rest = skip_line cs in if c == b'\n' then c ∷ cs else rest

abbrev pub closed : ℕ → Units → Option Units → Option Units
closed zero rest go_on = some rest
closed (suc depth) rest go_on = go_on

-- `_skipBlockComment`: comments nest. None if the input ends in the comment.
unfoldable pub skip_block : ℕ → Units → Option Units
skip_block depth [] = none
skip_block depth (c ∷ []) = none
skip_block depth (c ∷ d ∷ ds) =
    let opened = skip_block (depth + 1) ds in
    let inner = closed (depth - 1) ds (skip_block (depth - 1) ds) in
    let plain = skip_block depth (d ∷ ds) in
    if (c == b'/') && (d == b'*')
    then opened
    else if (c == b'*') && (d == b'/')
    then inner
    else plain

-- One round of `_skipWhitespaceAndComments`
pub data BlankStep : Type 0 where
  go_on : Units → BlankStep
  stop : BlankStep
  unclosed : BlankStep

abbrev pub after_block : Option Units → BlankStep
after_block none = unclosed
after_block (some rest) = go_on rest

unfoldable pub blank_step : Units → BlankStep
unfolding skip_block
blank_step [] = stop
blank_step (c ∷ cs) =
    if is_blank c
    then go_on cs
    else if (c == b'-') && starts b'-' cs
    then go_on (skip_line cs)
    else if (c == b'/') && starts b'*' cs
    then after_block (skip_block 0 (c ∷ cs))
    else stop

pub data Skipped : Type 0 where
  skipped : Units → Skipped
  unclosed_at : Units → Skipped
  skip_out_of_fuel : Skipped

abbrev pub follow : BlankStep → Units → (Units → Skipped) → Skipped
follow (go_on rest) here k = k rest
follow stop here k = skipped here
follow unclosed here k = unclosed_at here

unfoldable pub skip_blank : ℕ → Units → Skipped
unfolding blank_step
skip_blank zero here = skip_out_of_fuel
skip_blank (suc fuel) here = follow (blank_step here) here (skip_blank fuel)
