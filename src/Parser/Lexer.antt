-- ===== src/Parser/Lexer.antt =====
-- src/parser/lexer.ts: the lexer. The input that is still to be read stands for the position, which is
-- kept beside it; `this.input[this.pos + 1]` is the second of what is left.
pub mod Tokens
pub mod Blanks
pub mod Scans
pub mod Quoted
pub mod Progress
pub mod Positions
use query_engine.Prelude.{
  ℕ, zero, suc, ◌+◌, ◌-◌, Bool, true, false, ◌&&◌, ◌||◌, Option, none, some, List, [], ◌∷◌, ◌++◌,
  map, length, leb, ltb, ◌==◌, if◌then◌else◌,
}
use query_engine.Parser.Lexer.Tokens.{
  TokenType, Units, codes, keywords, lookup_keyword, ident_token, number_token, string_token,
  comma_token, dot_token, star_token, lparen_token, rparen_token, eq_token, neq_token, lt_token,
  gt_token, lte_token, gte_token, plus_token, minus_token, slash_token, percent_token,
  semicolon_token, concat_token, colon_token, placeholder_token, eof_token,
}
use query_engine.Parser.Lexer.Blanks.{
  BlankStep, LexReason, Skipped, after_block, blank_step, closed, empty_identifier, follow, go_on,
  is_blank, is_digit, is_ident_part, is_ident_start, missing_parameter_number, skip_blank,
  skip_block, skip_line, skip_out_of_fuel, skipped, starts, stop, unclosed, unclosed_at,
  unexpected_character, unterminated_comment, unterminated_identifier, unterminated_string,
}
use query_engine.Parser.Lexer.Scans.{
  Scan, alone_scan, double_scan, double_symbol, exponent_of, failed, ident_scan, identifier_scan,
  number_scan, placeholder_scan, prepend, read_exponent, read_fraction, read_quoted, read_sign,
  scan, scanned, single_scan, single_symbol, span, string_scan, symbol_scan, to_upper, word_scan,
}

pub record Token : Type 0 where
  pub kind : TokenType
  pub value : Units
  pub position : ℕ
  pub quoted : Bool

-- What `_tokenize` leaves in `tokens`, or the error with its offset.
pub data Lexed : Type 0 where
  tokens : List Token → Lexed
  lex_error : LexReason → ℕ → Lexed
  out_of_fuel : Lexed

abbrev pub emit : Token → Lexed → Lexed
emit t (tokens ts) = tokens (t ∷ ts)
emit t (lex_error why offset) = lex_error why offset
emit t out_of_fuel = out_of_fuel

abbrev pub eof : ℕ → Token
eof pos = record { kind = eof_token; value = []; position = pos; quoted = false }

-- The token that was read at `pos`, then what follows
abbrev pub after_scan : ℕ → Units → Scan → (ℕ → Units → Lexed) → Lexed
after_scan pos here (failed why) k = lex_error why pos
after_scan pos here (scanned kind value quoted rest) k =
    emit (record { kind = kind; value = value; position = pos; quoted = quoted })
      (k (pos + (length here - length rest)) rest)

-- What is left behind the blanks, at `pos`
abbrev pub at_token : ℕ → Units → (ℕ → Units → Lexed) → Lexed
at_token pos [] k = tokens (eof pos ∷ [])
at_token pos (c ∷ cs) k = after_scan pos (c ∷ cs) (scan c cs) k

abbrev pub after_blank : ℕ → Units → Skipped → (ℕ → Units → Lexed) → Lexed
after_blank pos here (skipped rest) k = at_token (pos + (length here - length rest)) rest k
after_blank pos here (unclosed_at rest) k =
    lex_error unterminated_comment (pos + (length here - length rest))
after_blank pos here skip_out_of_fuel k = out_of_fuel

-- The loop of `_tokenize`. Every round but the last reads a unit.
unfoldable pub tokenize_from : ℕ → ℕ → Units → Lexed
unfolding skip_blank scan
tokenize_from zero pos here = out_of_fuel
tokenize_from (suc fuel) pos here =
    after_blank pos here (skip_blank (suc (length here)) here) (tokenize_from fuel)

unfoldable pub tokenize : Units → Lexed
unfolding tokenize_from
tokenize input = tokenize_from (suc (length input)) 0 input
