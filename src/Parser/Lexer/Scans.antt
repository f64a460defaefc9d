-- ===== src/Parser/Lexer/Scans.antt =====
-- The tokens of src/parser/lexer.ts, each from its first unit on.
use query_engine.Prelude.{
  ℕ, ◌-◌, Bool, true, false, ◌&&◌, ◌||◌, Option, none, some, [], ◌∷◌, ◌++◌, map, leb, ◌==◌,
  if◌then◌else◌,
}
use query_engine.Parser.Lexer.Tokens.{
  TokenType, Units, keywords, lookup_keyword, ident_token, number_token, string_token, comma_token,
  dot_token, star_token, lparen_token, rparen_token, eq_token, neq_token, lt_token, gt_token,
  lte_token, gte_token, plus_token, minus_token, slash_token, percent_token, semicolon_token,
  concat_token, colon_token, placeholder_token,
}
use query_engine.Parser.Lexer.Blanks.{
  LexReason, empty_identifier, is_digit, is_ident_part, is_ident_start, missing_parameter_number,
  unexpected_character, unterminated_identifier, unterminated_string,
}

-- A token that has been read: its kind, its value, whether it was quoted, and what is left
pub data Scan : Type 0 where
  scanned : TokenType → Units → Bool → Units → Scan
  failed : LexReason → Scan

abbrev pub prepend : ℕ → Option (Units × Units) → Option (Units × Units)
prepend c none = none
prepend c (some (value, rest)) = some (c ∷ value, rest)

-- Up to the closing quote, where a doubled quote stands for one: the loops of `_readString` and of
-- `_readQuotedIdent`.
unfoldable pub read_quoted : ℕ → Units → Option (Units × Units)
read_quoted quote [] = none
read_quoted quote (c ∷ []) = if c == quote then some ([], []) else none
read_quoted quote (c ∷ d ∷ ds) =
    let doubled = prepend quote (read_quoted quote ds) in
    let plain = prepend c (read_quoted quote (d ∷ ds)) in
    if c == quote then (if d == quote then doubled else some ([], d ∷ ds)) else plain

abbrev pub string_scan : Option (Units × Units) → Scan
string_scan none = failed unterminated_string
string_scan (some (value, rest)) = scanned string_token value false rest

abbrev pub identifier_scan : Option (Units × Units) → Scan
identifier_scan none = failed unterminated_identifier
identifier_scan (some ([], rest)) = failed empty_identifier
identifier_scan (some (c ∷ value, rest)) = scanned ident_token (c ∷ value) true rest

-- The longest prefix of units that pass, and what is left
unfoldable pub span : (ℕ → Bool) → Units → Units × Units
span p [] = ([], [])
span p (c ∷ cs) = let more = span p cs in if p c then (c ∷ more.0, more.1) else ([], c ∷ cs)

abbrev pub placeholder_scan : Units × Units → Scan
placeholder_scan ([], rest) = failed missing_parameter_number
placeholder_scan (c ∷ digits, rest) = scanned placeholder_token (c ∷ digits) false rest

-- `.` and digits, if there is a point
abbrev pub read_fraction : Units → Units × Units
read_fraction [] = ([], [])
read_fraction (c ∷ cs) =
    let digits = span is_digit cs in if c == b'.' then (c ∷ digits.0, digits.1) else ([], c ∷ cs)

-- A sign, if there is one
abbrev pub read_sign : Units → Units × Units
read_sign [] = ([], [])
read_sign (c ∷ cs) = if (c == b'+') || (c == b'-') then (c ∷ [], cs) else ([], c ∷ cs)

-- `saved` is taken up again if no digit follows.
abbrev pub exponent_of : ℕ → Units → Units → Units × Units → Units × Units
exponent_of marker sign saved ([], rest) = ([], saved)
exponent_of marker sign saved (c ∷ digits, rest) = (marker ∷ sign ++ c ∷ digits, rest)

unfoldable pub read_exponent : Units → Units × Units
unfolding span
read_exponent [] = ([], [])
read_exponent (c ∷ cs) =
    let sign = read_sign cs in
    if (c == b'e') || (c == b'E')
    then exponent_of c sign.0 (c ∷ cs) (span is_digit sign.1)
    else ([], c ∷ cs)

unfoldable pub number_scan : Units → Scan
unfolding span read_exponent
number_scan here =
    let whole = span is_digit here in
    let fraction = read_fraction whole.1 in
    let exponent = read_exponent fraction.1 in
    scanned number_token (whole.0 ++ fraction.0 ++ exponent.0) false exponent.1

-- `toUpperCase` of the units that an identifier can have
abbrev pub to_upper : ℕ → ℕ
to_upper c = if leb b'a' c && leb c b'z' then c - 32 else c

abbrev pub word_scan : Option TokenType → Units → Units → Scan
word_scan none word rest = scanned ident_token word false rest
word_scan (some kind) word rest = scanned kind (map to_upper word) false rest

unfoldable pub ident_scan : Units → Scan
unfolding span lookup_keyword
ident_scan here =
    let word = span is_ident_part here in
    word_scan (lookup_keyword (map to_upper word.0) keywords) word.0 word.1

-- The symbols of one unit
unfoldable pub single_symbol : ℕ → Option TokenType
single_symbol c =
    if c == b','
    then some comma_token
    else if c == b'.'
    then some dot_token
    else if c == b'*'
    then some star_token
    else if c == b'('
    then some lparen_token
    else if c == b')'
    then some rparen_token
    else if c == b'+'
    then some plus_token
    else if c == b'-'
    then some minus_token
    else if c == b'/'
    then some slash_token
    else if c == b'%'
    then some percent_token
    else if c == b';'
    then some semicolon_token
    else if c == b':'
    then some colon_token
    else if c == b'='
    then some eq_token
    else none

abbrev pub single_scan : ℕ → Option TokenType → Units → Scan
single_scan c none rest = failed unexpected_character
single_scan c (some kind) rest = scanned kind (c ∷ []) false rest

-- The kind of a symbol of two units
unfoldable pub double_symbol : ℕ → ℕ → Option TokenType
double_symbol c d =
    if (c == b'<') && (d == b'=')
    then some lte_token
    else if (c == b'<') && (d == b'>')
    then some neq_token
    else if (c == b'>') && (d == b'=')
    then some gte_token
    else if (c == b'!') && (d == b'=')
    then some neq_token
    else if (c == b'|') && (d == b'|')
    then some concat_token
    else none

-- A symbol that is not the first half of two
unfoldable pub alone_scan : ℕ → Units → Scan
unfolding single_symbol
alone_scan c rest =
    if c == b'<'
    then scanned lt_token (c ∷ []) false rest
    else if c == b'>'
    then scanned gt_token (c ∷ []) false rest
    else single_scan c (single_symbol c) rest

abbrev pub double_scan : ℕ → ℕ → Option TokenType → Units → Scan
double_scan c d none rest = alone_scan c (d ∷ rest)
double_scan c d (some kind) rest = scanned kind (c ∷ d ∷ []) false rest

-- `_readSymbol`
unfoldable pub symbol_scan : ℕ → Units → Scan
unfolding alone_scan double_symbol
symbol_scan c [] = alone_scan c []
symbol_scan c (d ∷ ds) = double_scan c d (double_symbol c d) ds

-- One token, from its first unit on
unfoldable pub scan : ℕ → Units → Scan
unfolding read_quoted span number_scan ident_scan symbol_scan
scan c cs =
    if c == b'\''
    then string_scan (read_quoted b'\'' cs)
    else if c == b'"'
    then identifier_scan (read_quoted b'"' cs)
    else if c == b'$'
    then placeholder_scan (span is_digit cs)
    else if is_digit c
    then number_scan (c ∷ cs)
    else if is_ident_start c
    then ident_scan (c ∷ cs)
    else symbol_scan c cs
