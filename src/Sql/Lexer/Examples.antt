-- ===== src/Sql/Lexer/Examples.antt =====
-- The text `SELECT * FROM t`, and a quoted text that has a quote in it.
use Prim.Native.String.{◌++◌}
use doki.Prelude.{
  ℕ, ◌≡◌, refl, String, ◌⊎◌, List, [], ◌∷◌, Option, none, some, if◌then◌else◌, ◌==◌, str_eq,
}
use doki.Config.{ℤ}
use doki.Sql.Ast.{Statement, select, star}
use doki.Sql.Parser.{Token, parsed, syntax_err}
use doki.Sql.Lexer.{next_is, token_at, lex_token, parse}
use doki.Sql.Lexer.Scans.{lex_token-quoted}
use doki.Sql.Lexer.Total.{parse_returns}

-- The letters of the text.
abbrev letter : ℕ → String
letter b =
    if b == 83
    then "S"
    else if b == 69
    then "E"
    else if b == 76
    then "L"
    else if b == 67
    then "C"
    else if b == 84
    then "T"
    else if b == 70
    then "F"
    else if b == 82
    then "R"
    else if b == 79
    then "O"
    else if b == 77
    then "M"
    else if b == 116
    then "t"
    else "?"

abbrev text_of : List ℕ → String
text_of [] = ""
text_of (b ∷ bs) = letter b ++ text_of bs

-- strings.ToLower at the two keywords.
abbrev to_lower : String → String
to_lower s = if str_eq s "SELECT" then "select" else if str_eq s "FROM" then "from" else s

abbrev same : String → String
same s = s

abbrev no_number : String → Option ℤ
no_number s = none

-- `SELECT * FROM t`
abbrev query : List ℕ
query = 83 ∷ 69 ∷ 76 ∷ 69 ∷ 67 ∷ 84 ∷ 32 ∷ 42 ∷ 32 ∷ 70 ∷ 82 ∷ 79 ∷ 77 ∷ 32 ∷ 116 ∷ []

parses_query :
    parse text_of to_lower same no_number query
    ≡ parsed (select (star ∷ []) "t" none) (token_at "EOF" "" 15 ∷ [])
unfolding parse token_at
parses_query = refl

parse_returns_example :
    (parse text_of to_lower same no_number query ≡ syntax_err)
    ⊎ ((s : Statement) × (rest : List Token) × (parse text_of to_lower same no_number query
          ≡ parsed s rest))
parse_returns_example = parse_returns text_of to_lower same no_number query

-- A quote between two letters, and a semicolon after the string.
lex_token-quoted_example :
    lex_token text_of to_lower 39 (83 ∷ 39 ∷ 39 ∷ 69 ∷ 39 ∷ 59 ∷ []) 4
    ≡ some (token_at "STRING" (text_of (83 ∷ 39 ∷ 69 ∷ [])) 4, 59 ∷ [])
unfolding next_is
lex_token-quoted_example = lex_token-quoted text_of to_lower (83 ∷ 39 ∷ 69 ∷ []) (59 ∷ []) 4 refl
