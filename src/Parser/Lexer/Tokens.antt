-- ===== src/Parser/Lexer/Tokens.antt =====
-- src/parser/lexer.ts: the kinds of tokens, and the table of keywords.
use Prim.Native.Char.{code}
use query_engine.Prelude.{
  ℕ, String, Bool, true, false, ◌&&◌, Option, none, some, List, [], ◌∷◌, ◌==◌, if◌then◌else◌,
}

pub data TokenType : Type 0 where
  ident_token number_token string_token comma_token dot_token star_token : TokenType
  lparen_token rparen_token eq_token neq_token lt_token gt_token : TokenType
  lte_token gte_token plus_token minus_token slash_token percent_token : TokenType
  semicolon_token concat_token colon_token placeholder_token eof_token : TokenType
  explain_kw select_kw from_kw where_kw and_kw or_kw : TokenType
  not_kw as_kw on_kw join_kw inner_kw left_kw : TokenType
  right_kw full_kw outer_kw cross_kw in_kw exists_kw : TokenType
  between_kw like_kw is_kw null_kw true_kw false_kw : TokenType
  case_kw when_kw then_kw else_kw end_kw distinct_kw : TokenType
  all_kw group_kw by_kw having_kw order_kw asc_kw : TokenType
  desc_kw limit_kw offset_kw union_kw except_kw intersect_kw : TokenType
  with_kw cast_kw interval_kw extract_kw substring_kw trim_kw : TokenType
  year_kw month_kw day_kw date_kw sum_kw avg_kw : TokenType
  count_kw min_kw max_kw create_kw view_kw nulls_kw : TokenType
  first_kw last_kw fetch_kw next_kw rows_kw only_kw : TokenType
  some_kw any_kw leading_kw trailing_kw both_kw for_kw : TokenType
  timestamp_kw hour_kw minute_kw second_kw over_kw partition_kw : TokenType
  range_kw groups_kw unbounded_kw preceding_kw following_kw current_kw : TokenType
  row_kw natural_kw using_kw table_kw drop_kw if_kw : TokenType
  analyze_kw : TokenType

-- A text as its UTF-16 units.
abbrev pub Units : Type 0
Units = List ℕ

-- The units of a text below U+10000.
abbrev pub codes : String → Units
codes String.[] = []
codes (String.◌∷◌ c s) = code c ∷ codes s

abbrev pub units_equal : Units → Units → Bool
units_equal [] [] = true
units_equal (x ∷ xs) (y ∷ ys) = (x == y) && units_equal xs ys
units_equal _ _ = false

-- Every name of `TokenType` but those of `NON_KEYWORD_TOKENS`
abbrev pub keywords : List (String × TokenType)
keywords =
    ("EXPLAIN", explain_kw)
    ∷ ("SELECT", select_kw)
    ∷ ("FROM", from_kw)
    ∷ ("WHERE", where_kw)
    ∷ ("AND", and_kw)
    ∷ ("OR", or_kw)
    ∷ ("NOT", not_kw)
    ∷ ("AS", as_kw)
    ∷ ("ON", on_kw)
    ∷ ("JOIN", join_kw)
    ∷ ("INNER", inner_kw)
    ∷ ("LEFT", left_kw)
    ∷ ("RIGHT", right_kw)
    ∷ ("FULL", full_kw)
    ∷ ("OUTER", outer_kw)
    ∷ ("CROSS", cross_kw)
    ∷ ("IN", in_kw)
    ∷ ("EXISTS", exists_kw)
    ∷ ("BETWEEN", between_kw)
    ∷ ("LIKE", like_kw)
    ∷ ("IS", is_kw)
    ∷ ("NULL", null_kw)
    ∷ ("TRUE", true_kw)
    ∷ ("FALSE", false_kw)
    ∷ ("CASE", case_kw)
    ∷ ("WHEN", when_kw)
    ∷ ("THEN", then_kw)
    ∷ ("ELSE", else_kw)
    ∷ ("END", end_kw)
    ∷ ("DISTINCT", distinct_kw)
    ∷ ("ALL", all_kw)
    ∷ ("GROUP", group_kw)
    ∷ ("BY", by_kw)
    ∷ ("HAVING", having_kw)
    ∷ ("ORDER", order_kw)
    ∷ ("ASC", asc_kw)
    ∷ ("DESC", desc_kw)
    ∷ ("LIMIT", limit_kw)
    ∷ ("OFFSET", offset_kw)
    ∷ ("UNION", union_kw)
    ∷ ("EXCEPT", except_kw)
    ∷ ("INTERSECT", intersect_kw)
    ∷ ("WITH", with_kw)
    ∷ ("CAST", cast_kw)
    ∷ ("INTERVAL", interval_kw)
    ∷ ("EXTRACT", extract_kw)
    ∷ ("SUBSTRING", substring_kw)
    ∷ ("TRIM", trim_kw)
    ∷ ("YEAR", year_kw)
    ∷ ("MONTH", month_kw)
    ∷ ("DAY", day_kw)
    ∷ ("DATE", date_kw)
    ∷ ("SUM", sum_kw)
    ∷ ("AVG", avg_kw)
    ∷ ("COUNT", count_kw)
    ∷ ("MIN", min_kw)
    ∷ ("MAX", max_kw)
    ∷ ("CREATE", create_kw)
    ∷ ("VIEW", view_kw)
    ∷ ("NULLS", nulls_kw)
    ∷ ("FIRST", first_kw)
    ∷ ("LAST", last_kw)
    ∷ ("FETCH", fetch_kw)
    ∷ ("NEXT", next_kw)
    ∷ ("ROWS", rows_kw)
    ∷ ("ONLY", only_kw)
    ∷ ("SOME", some_kw)
    ∷ ("ANY", any_kw)
    ∷ ("LEADING", leading_kw)
    ∷ ("TRAILING", trailing_kw)
    ∷ ("BOTH", both_kw)
    ∷ ("FOR", for_kw)
    ∷ ("TIMESTAMP", timestamp_kw)
    ∷ ("HOUR", hour_kw)
    ∷ ("MINUTE", minute_kw)
    ∷ ("SECOND", second_kw)
    ∷ ("OVER", over_kw)
    ∷ ("PARTITION", partition_kw)
    ∷ ("RANGE", range_kw)
    ∷ ("GROUPS", groups_kw)
    ∷ ("UNBOUNDED", unbounded_kw)
    ∷ ("PRECEDING", preceding_kw)
    ∷ ("FOLLOWING", following_kw)
    ∷ ("CURRENT", current_kw)
    ∷ ("ROW", row_kw)
    ∷ ("NATURAL", natural_kw)
    ∷ ("USING", using_kw)
    ∷ ("TABLE", table_kw)
    ∷ ("DROP", drop_kw)
    ∷ ("IF", if_kw)
    ∷ ("ANALYZE", analyze_kw)
    ∷ []

unfoldable pub lookup_keyword : Units → List (String × TokenType) → Option TokenType
lookup_keyword word [] = none
lookup_keyword word ((name, kind) ∷ rest) =
    let later = lookup_keyword word rest in
    if units_equal (codes name) word then some kind else later
