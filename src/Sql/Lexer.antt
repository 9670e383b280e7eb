-- ===== src/Sql/Lexer.antt =====
-- internal/sql/lexer.go: the lexer, over the bytes of a text, to the tokens of internal/sql/token.go.
-- The state is what is left of the text; a position is the bytes of the text less those that are left.
-- `text_of` makes a string of bytes, and `to_lower` is `strings.ToLower`. The loop of `lex` goes by
-- fuel, for which `lex` takes one more than there are bytes; the scans go by the list.
pub mod Scans
pub mod Total
mod Examples
use doki.Prelude.{
  ℕ, zero, suc, ◌-◌, String, Bool, true, false, not, List, [], ◌∷◌, Option, none, some,
  if◌then◌else◌, str_eq, ◌||◌, ◌&&◌, leb, ◌==◌, length,
}
use doki.Config.{ℤ}
use doki.Sql.Ast.{Statement}
use doki.Sql.Parser.{Token, Parse, syntax_err, parse_statement}

pub data Lexed : Type 0 where
  tokens : List Token → Lexed
  lex_err out_of_fuel : Lexed

unfoldable pub is_letter : ℕ → Bool
is_letter ch = (leb 97 ch && leb ch 122) || ((leb 65 ch && leb ch 90) || (ch == 95))

unfoldable pub is_digit : ℕ → Bool
is_digit ch = leb 48 ch && leb ch 57

unfoldable pub is_letter_or_digit : ℕ → Bool
unfolding is_letter is_digit
is_letter_or_digit ch = is_letter ch || is_digit ch

unfoldable pub is_space : ℕ → Bool
is_space ch = (ch == 32) || ((ch == 9) || ((ch == 10) || (ch == 13)))

-- The next byte is there and is this one.
unfoldable pub next_is : ℕ → List ℕ → Bool
next_is ch [] = false
next_is ch (b ∷ bs) = b == ch

-- A comment begins with two dashes and ends before the end of its line.
unfoldable pub in_comment : Bool → ℕ → List ℕ → Bool
unfolding next_is
in_comment true b bs = not (b == 10)
in_comment false b bs = (b == 45) && next_is 45 bs

-- The white space and the comments are passed over; the test is whether a comment has begun.
unfoldable pub skip_from : Bool → List ℕ → List ℕ
unfolding is_space in_comment
skip_from comment [] = []
skip_from comment (b ∷ bs) =
    let inside = in_comment comment b bs in
    let rest = skip_from inside bs in if inside || is_space b then rest else b ∷ bs

unfoldable pub take_while : (ℕ → Bool) → List ℕ → List ℕ
take_while p [] = []
take_while p (b ∷ bs) = let more = take_while p bs in if p b then b ∷ more else []

unfoldable pub drop_while : (ℕ → Bool) → List ℕ → List ℕ
drop_while p [] = []
drop_while p (b ∷ bs) = let rest = drop_while p bs in if p b then rest else b ∷ bs

-- A byte is put before the content of a string that was read.
unfoldable pub write_byte : ℕ → Option (List ℕ × List ℕ) → Option (List ℕ × List ℕ)
write_byte b none = none
write_byte b (some (content, rest)) = some (b ∷ content, rest)

-- The content of a string and what is left after its closing quote; the test is whether the last
-- byte was a quote, which closes the string unless another one follows.
unfoldable pub string_from : Bool → List ℕ → Option (List ℕ × List ℕ)
unfolding write_byte
string_from true [] = some ([], [])
string_from false [] = none
string_from true (b ∷ bs) =
    let rest = string_from false bs in if b == 39 then write_byte 39 rest else some ([], b ∷ bs)
string_from false (b ∷ bs) =
    let rest = string_from (b == 39) bs in if b == 39 then rest else write_byte b rest

abbrev pub keywords : List (String × String)
keywords =
    ("select", "SELECT")
    ∷ ("insert", "INSERT")
    ∷ ("update", "UPDATE")
    ∷ ("delete", "DELETE")
    ∷ ("create", "CREATE")
    ∷ ("table", "TABLE")
    ∷ ("from", "FROM")
    ∷ ("where", "WHERE")
    ∷ ("into", "INTO")
    ∷ ("values", "VALUES")
    ∷ ("set", "SET")
    ∷ ("primary", "PRIMARY")
    ∷ ("key", "KEY")
    ∷ ("int", "INT")
    ∷ ("text", "TEXT")
    ∷ ("bool", "BOOL")
    ∷ ("not", "NOT")
    ∷ ("null", "NULL")
    ∷ ("and", "AND")
    ∷ ("or", "OR")
    ∷ ("true", "TRUE")
    ∷ ("false", "FALSE")
    ∷ []

unfoldable pub ident_or_keyword : String → List (String × String) → String
ident_or_keyword lower [] = "IDENT"
ident_or_keyword lower ((word, type) ∷ rest) =
    let other = ident_or_keyword lower rest in if str_eq word lower then type else other

-- The type of a token of one byte.
unfoldable pub punctuation : ℕ → Option String
punctuation ch =
    if ch == 40
    then some "("
    else if ch == 41
    then some ")"
    else if ch == 44
    then some ","
    else if ch == 59
    then some ";"
    else if ch == 42
    then some "*"
    else if ch == 61
    then some "="
    else none

unfoldable pub token_at : String → String → ℕ → Token
token_at type lit at = record { ttype = type; literal = lit; pos = at }

unfoldable pub drop_byte : List ℕ → List ℕ
drop_byte [] = []
drop_byte (b ∷ bs) = bs

-- A token and what is left, none for an error.
unfoldable pub operator : ℕ → List ℕ → ℕ → Option (Token × List ℕ)
unfolding next_is token_at drop_byte
operator ch bs at =
    if ch == 33
    then (if next_is 61 bs then some (token_at "!=" "!=" at, drop_byte bs) else none)
    else if ch == 60
    then (if next_is 61 bs
        then some (token_at "<=" "<=" at, drop_byte bs)
        else some (token_at "<" "<" at, bs))
    else if ch == 62
    then (if next_is 61 bs
        then some (token_at ">=" ">=" at, drop_byte bs)
        else some (token_at ">" ">" at, bs))
    else none

unfoldable pub punctuated : Option String → ℕ → List ℕ → ℕ → Option (Token × List ℕ)
unfolding token_at operator
punctuated (some p) ch bs at = some (token_at p p at, bs)
punctuated none ch bs at = operator ch bs at

unfoldable pub prepend : Token → Lexed → Lexed
prepend t (tokens ts) = tokens (t ∷ ts)
prepend t lex_err = lex_err
prepend t out_of_fuel = out_of_fuel

unfoldable pub then_lex : (List ℕ → Lexed) → Option (Token × List ℕ) → Lexed
unfolding prepend
then_lex more none = lex_err
then_lex more (some (t, rest)) = prepend t (more rest)

module _ (text_of : List ℕ → String) (to_lower : String → String) where
  unfoldable pub lex_ident_or_keyword : List ℕ → ℕ → Token × List ℕ
  unfolding take_while drop_while is_letter_or_digit ident_or_keyword token_at
  lex_ident_or_keyword bs at =
      let lit = text_of (take_while is_letter_or_digit bs) in
      (token_at (ident_or_keyword (to_lower lit) keywords) lit at, drop_while is_letter_or_digit bs)

  unfoldable pub lex_number : List ℕ → ℕ → Token × List ℕ
  unfolding take_while drop_while is_digit token_at
  lex_number bs at =
      (token_at "NUMBER" (text_of (take_while is_digit bs)) at, drop_while is_digit bs)

  unfoldable pub string_token : Option (List ℕ × List ℕ) → ℕ → Option (Token × List ℕ)
  unfolding token_at
  string_token none at = none
  string_token (some (content, rest)) at = some (token_at "STRING" (text_of content) at, rest)

  -- The token that begins with a byte, where it is not white space.
  unfoldable pub lex_token : ℕ → List ℕ → ℕ → Option (Token × List ℕ)
  unfolding is_letter is_digit lex_ident_or_keyword lex_number string_token string_from punctuated
      punctuation
  lex_token ch bs at =
      if is_letter ch
      then some (lex_ident_or_keyword (ch ∷ bs) at)
      else if is_digit ch
      then some (lex_number (ch ∷ bs) at)
      else if ch == 39
      then string_token (string_from false bs) at
      else punctuated (punctuation ch) ch bs at

  unfoldable pub lex_next : (List ℕ → Lexed) → ℕ → List ℕ → Lexed
  unfolding token_at then_lex lex_token
  lex_next more total [] = tokens (token_at "EOF" "" total ∷ [])
  lex_next more total (ch ∷ bs) = then_lex more (lex_token ch bs (total - length (ch ∷ bs)))

  unfoldable pub lex_loop : ℕ → ℕ → List ℕ → Lexed
  unfolding lex_next skip_from
  lex_loop total zero bs = out_of_fuel
  lex_loop total (suc n) bs = lex_next (lex_loop total n) total (skip_from false bs)

  unfoldable pub lex : List ℕ → Lexed
  unfolding lex_loop
  lex bs = lex_loop (length bs) (suc (length bs)) bs

-- Parse of internal/sql/parser.go: the error of the lexer, or what the parser says of the tokens.
module _ (to_upper : String → String) (parse_int : String → Option ℤ) where
  unfoldable pub parse_lexed : Lexed → Parse Statement
  unfolding parse_statement
  parse_lexed (tokens ts) = parse_statement parse_int to_upper ts
  parse_lexed lex_err = syntax_err
  parse_lexed out_of_fuel = Parse.out_of_fuel

unfoldable pub parse :
    (List ℕ → String)
    → (String → String)
    → (String → String)
    → (String → Option ℤ)
    → List ℕ
    → Parse Statement
unfolding parse_lexed lex
parse text_of to_lower to_upper parse_int input =
    parse_lexed to_upper parse_int (lex text_of to_lower input)
