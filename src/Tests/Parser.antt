-- ===== src/Tests/Parser.antt =====
-- Inputs of the lexer.
use query_engine.Prelude.{◌≡◌, refl, true, false, [], ◌∷◌}
use query_engine.Parser.Lexer.Tokens.{
  Units, codes, string_token, ident_token, select_kw, number_token, lte_token, eof_token,
}
use query_engine.Parser.Lexer.{tokens, tokenize, tokenize_from, emit}
use query_engine.Parser.Lexer.Quoted.{tokenize_from-string, tokenize_from-identifier}
use query_engine.Parser.Lexer.Positions.{Located, tokenize-Located}

abbrev input : Units
input = codes "select 1.5e3 /* /* */ */ <= 'it''s'"

input_tokens :
    tokenize input
    ≡ tokens (
        record { kind = select_kw; value = codes "SELECT"; position = 0; quoted = false }
        ∷ record { kind = number_token; value = codes "1.5e3"; position = 7; quoted = false }
        ∷ record { kind = lte_token; value = codes "<="; position = 25; quoted = false }
        ∷ record { kind = string_token; value = codes "it's"; position = 28; quoted = false }
        ∷ record { kind = eof_token; value = []; position = 35; quoted = false }
        ∷ [])
unfolding tokenize
input_tokens = refl

tokenize-Located_example : Located 0 35 (tokenize input)
tokenize-Located_example = tokenize-Located input

tokenize_from-string_example :
    tokenize_from 9 28 (codes "'it''s' x")
    ≡ emit
        (record { kind = string_token; value = codes "it's"; position = 28; quoted = false })
        (tokenize_from 8 35 (codes " x"))
tokenize_from-string_example = tokenize_from-string 8 28 (codes "it's") (codes " x") refl

tokenize_from-identifier_example :
    tokenize_from 9 0 (codes "\"from\"")
    ≡ emit
        (record { kind = ident_token; value = codes "from"; position = 0; quoted = true })
        (tokenize_from 8 6 [])
tokenize_from-identifier_example = tokenize_from-identifier 8 0 b'f' (codes "rom") [] refl
