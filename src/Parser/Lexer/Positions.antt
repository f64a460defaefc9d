-- ===== src/Parser/Lexer/Positions.antt =====
-- The positions of the tokens of src/parser/lexer.ts.
use query_engine.Prelude.{ℕ, zero, suc, ◌+◌, ◌-◌, ◌≤◌, ◌<◌, ◌≡◌, refl, List, [], ◌∷◌, length, arith}
use query_engine.Parser.Lexer.Tokens.{Units, eof_token}
use query_engine.Parser.Lexer.{
  Token, Lexed, tokens, lex_error, out_of_fuel, emit, after_scan, at_token, after_blank,
  tokenize_from, tokenize,
}
use query_engine.Parser.Lexer.Blanks.{Skipped, skipped, unclosed_at, skip_out_of_fuel}
use query_engine.Parser.Lexer.Scans.{Scan, scanned, failed, scan}
use query_engine.Parser.Lexer.Progress.{Skips, skip_blank-Skips, Leaves, scan-Leaves}

-- Positions that increase from `low` on and lie below `stop`, up to an end-of-input token at `stop`
abbrev pub Chain : ℕ → ℕ → List Token → Type 0
Chain low stop [] = ⊥
Chain low stop (t ∷ []) = (t.kind ≡ eof_token) × (t.position ≡ stop)
Chain low stop (t ∷ u ∷ ts) =
    (low ≤ t.position) × (t.position < stop) × Chain (suc t.position) stop (u ∷ ts)

abbrev pub Located : ℕ → ℕ → Lexed → Type 0
Located low stop (tokens ts) = Chain low stop ts
Located low stop (lex_error why offset) = (low ≤ offset) × (offset < stop)
Located low stop out_of_fuel = ⊥

Chain-weaken :
    (low high stop : ℕ) (ts : List Token) → low ≤ high → Chain high stop ts → Chain low stop ts
Chain-weaken low high stop [] h c = c
Chain-weaken low high stop (t ∷ []) h c = c
Chain-weaken low high stop (t ∷ u ∷ ts) h c = (omega (arith, c.0), c.1, c.2)

emit-Located :
    (low stop next : ℕ) (t : Token) (l : Lexed)
    → low ≤ t.position
    → t.position < next
    → t.position < stop
    → Located next stop l
    → Located low stop (emit t l)
emit-Located low stop next t (tokens []) h k b c = absurd c
emit-Located low stop next t (tokens (u ∷ ts)) h k b c =
    (h, b, Chain-weaken (suc t.position) next stop (u ∷ ts) k c)
emit-Located low stop next t (lex_error why offset) h k b c = (omega (arith, c.0), c.1)
emit-Located low stop next t out_of_fuel h k b c = c

Located-weaken :
    (low high stop : ℕ) (l : Lexed) → low ≤ high → Located high stop l → Located low stop l
Located-weaken low high stop (tokens ts) h c = Chain-weaken low high stop ts h c
Located-weaken low high stop (lex_error why offset) h c = (omega (arith, c.0), c.1)
Located-weaken low high stop out_of_fuel h c = c

module _ (fuel stop : ℕ)
    (go_on : (pos : ℕ) (rest : Units)
      → pos + length rest ≡ stop
      → length rest < fuel
      → Located pos stop (tokenize_from fuel pos rest)) where
  after_scan-Located :
      (pos c : ℕ) (cs : Units) (s : Scan)
      → pos + length (c ∷ cs) ≡ stop
      → length (c ∷ cs) < suc fuel
      → Leaves (length cs) s
      → Located pos stop (after_scan pos (c ∷ cs) s (tokenize_from fuel))
  after_scan-Located pos c cs (failed why) e h l = (omega arith, omega arith)
  after_scan-Located pos c cs (scanned kind value quoted rest) e h l =
      let next = pos + (length (c ∷ cs) - length rest) in
      emit-Located pos stop next _ _ (omega arith) (omega arith) (omega arith)
        (go_on next rest (omega arith) (omega arith))

  at_token-Located :
      (pos : ℕ) (rest : Units)
      → pos + length rest ≡ stop
      → length rest < suc fuel
      → Located pos stop (at_token pos rest (tokenize_from fuel))
  at_token-Located pos [] e h = (refl, omega arith)
  at_token-Located pos (c ∷ cs) e h = after_scan-Located pos c cs (scan c cs) e h (scan-Leaves c cs)

  after_blank-Located :
      (pos : ℕ) (here : Units) (s : Skipped)
      → pos + length here ≡ stop
      → length here < suc fuel
      → Skips (length here) s
      → Located pos stop (after_blank pos here s (tokenize_from fuel))
  after_blank-Located pos here (skipped rest) e h l =
      let next = pos + (length here - length rest) in
      Located-weaken pos next stop _ (omega arith)
        (at_token-Located next rest (omega arith) (omega arith))
  after_blank-Located pos here (unclosed_at rest) e h l = (omega arith, omega (arith, l.0))
  after_blank-Located pos here skip_out_of_fuel e h l = l

tokenize_from-Located :
    (fuel pos stop : ℕ) (here : Units)
    → pos + length here ≡ stop
    → length here < fuel
    → Located pos stop (tokenize_from fuel pos here)
unfolding tokenize_from
tokenize_from-Located zero pos stop here e h = absurd (omega arith)
tokenize_from-Located (suc fuel) pos stop here e h =
    after_blank-Located fuel stop (λ p rest f k. tokenize_from-Located fuel p stop rest f k) pos
      here _ e h (skip_blank-Skips (suc (length here)) here (omega arith))

-- The lexer ends on every input. Either the positions of its tokens increase strictly and lie in the
-- input, up to one end-of-input token that stands at the end, or it fails at an offset in the input.
pub tokenize-Located : (input : Units) → Located 0 (length input) (tokenize input)
unfolding tokenize
tokenize-Located input =
    tokenize_from-Located (suc (length input)) 0 (length input) input (omega arith) (omega arith)
