-- ===== src/Parser/Lexer/Quoted.antt =====
-- Quoted texts and delimited identifiers of src/parser/lexer.ts.
use query_engine.Prelude.{
  ℕ, suc, ◌+◌, ◌-◌, ◌≡◌, refl, sym, ap, ◌∙◌, true, false, some, [], ◌∷◌, ◌++◌, length, ◌==◌, ==_iff,
  if◌then◌else◌, arith, Bool-cases, inl, inr,
}
use query_engine.Parser.Lexer.Tokens.{Units, string_token, ident_token}
use query_engine.Parser.Lexer.{emit, tokenize_from}
use query_engine.Parser.Lexer.Blanks.{starts, blank_step, skip_blank}
use query_engine.Parser.Lexer.Scans.{read_quoted, prepend, scan}

-- A text with each quote in it doubled
abbrev pub escape : ℕ → Units → Units
escape quote [] = []
escape quote (c ∷ cs) =
    let rest = escape quote cs in if c == quote then quote ∷ quote ∷ rest else c ∷ rest

read_quoted-plain :
    (quote c : ℕ) (u : Units)
    → (c == quote) ≡ false
    → read_quoted quote (c ∷ u) ≡ prepend c (read_quoted quote u)
unfolding read_quoted
read_quoted-plain quote c [] h = rw h refl
read_quoted-plain quote c (d ∷ ds) h = rw h refl

read_quoted-end :
    (quote : ℕ) (rest : Units)
    → starts quote rest ≡ false
    → read_quoted quote (quote ∷ rest) ≡ some ([], rest)
unfolding read_quoted
read_quoted-end quote [] h = ground arith
read_quoted-end quote (d ∷ ds) h = ground arith

read_quoted-doubled :
    (quote : ℕ) (u : Units)
    → read_quoted quote (quote ∷ quote ∷ u) ≡ prepend quote (read_quoted quote u)
unfolding read_quoted
read_quoted-doubled quote u = ground arith

-- Reading an escaped text up to its closing quote gives the text.
pub read_quoted-escape :
    (quote : ℕ) (text rest : Units)
    → starts quote rest ≡ false
    → read_quoted quote (escape quote text ++ quote ∷ rest) ≡ some (text, rest)
read_quoted-escape quote [] rest h = read_quoted-end quote rest h
read_quoted-escape quote (c ∷ cs) rest h = elim (Bool-cases (c == quote)) [
  | inl e ↦ rw e (
      read_quoted-doubled quote (escape quote cs ++ quote ∷ rest)
      ∙ ap (prepend quote) (read_quoted-escape quote cs rest h)
      ∙ ap (λ x. some (x ∷ cs, rest)) (sym ((==_iff c quote).0 e)))
  | inr e ↦ rw e (
      read_quoted-plain quote c (escape quote cs ++ quote ∷ rest) e
      ∙ ap (prepend c) (read_quoted-escape quote cs rest h))
]

unmoved : (pos n : ℕ) → pos + (n - n) ≡ pos
unmoved pos n = omega arith

-- Any text at all, with its quotes doubled and put between quotes, is read as one string token that
-- has the text as its value, wherever it stands in the input, if no quote follows it.
pub tokenize_from-string :
    (fuel pos : ℕ) (text rest : Units)
    → starts b'\'' rest ≡ false
    → tokenize_from (suc fuel) pos (b'\'' ∷ escape b'\'' text ++ b'\'' ∷ rest)
      ≡ emit
          (record { kind = string_token; value = text; position = pos; quoted = false })
          (tokenize_from fuel
            (pos + (length (b'\'' ∷ escape b'\'' text ++ b'\'' ∷ rest) - length rest))
            rest)
unfolding tokenize_from skip_blank blank_step scan
tokenize_from-string fuel pos text rest h =
    rw
      (
        read_quoted-escape b'\'' text rest h,
        unmoved pos (suc (length (escape b'\'' text ++ b'\'' ∷ rest))),
      )
      refl

-- Any text that is not empty, with its double quotes doubled and put between double quotes, is read
-- as one identifier that has the text as its name, and is no keyword, wherever it stands in the
-- input, if no double quote follows it.
pub tokenize_from-identifier :
    (fuel pos c : ℕ) (cs rest : Units)
    → starts b'"' rest ≡ false
    → tokenize_from (suc fuel) pos (b'"' ∷ escape b'"' (c ∷ cs) ++ b'"' ∷ rest)
      ≡ emit
          (record { kind = ident_token; value = c ∷ cs; position = pos; quoted = true })
          (tokenize_from fuel
            (pos + (length (b'"' ∷ escape b'"' (c ∷ cs) ++ b'"' ∷ rest) - length rest))
            rest)
unfolding tokenize_from skip_blank blank_step scan
tokenize_from-identifier fuel pos c cs rest h =
    rw
      (
        read_quoted-escape b'"' (c ∷ cs) rest h,
        unmoved pos (suc (length (escape b'"' (c ∷ cs) ++ b'"' ∷ rest))),
      )
      refl
